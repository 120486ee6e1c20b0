-- ===== src/Runtime.antt =====
-- The records that agentloopgate/runtime keeps of model calls and task attempts.
pub mod Usage
pub mod Tasks
