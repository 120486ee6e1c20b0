-- ===== src/Evaluation.antt =====
-- The evaluation of recorded runs: agentloopgate/evaluation.
pub mod Metrics
pub mod Reset
