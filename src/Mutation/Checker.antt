-- ===== src/Mutation/Checker.antt =====
-- The candidate checker of agentloopgate/mutation/service.py.
pub mod Verdicts
pub mod Check
pub mod Returns
pub mod Requirements
pub mod Bindings
pub mod Admission
pub mod Executable
