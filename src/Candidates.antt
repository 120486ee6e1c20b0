-- ===== src/Candidates.antt =====
-- The registry of candidates: agentloopgate/candidates.
pub mod Registry
