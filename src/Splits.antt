-- ===== src/Splits.antt =====
-- Frozen task splits and who may read them: agentloopgate/splits.
pub mod Access
pub mod Service
