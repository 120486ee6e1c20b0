-- ===== src/Ledger.antt =====
-- The evidence that agentloopgate/experiment/ledger.py keeps of attempts and of their cost.
pub mod Calls
pub mod Channel
pub mod Attempts
