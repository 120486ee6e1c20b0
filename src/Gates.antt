-- ===== src/Gates.antt =====
-- Promotion gates and candidate selection: agentloopgate/gates.
pub mod Models
pub mod Engine
pub mod Selection
