-- ===== src/Mutation.antt =====
-- The check of candidate patches: agentloopgate/mutation.
pub mod Models
pub mod Patch
pub mod Checker
