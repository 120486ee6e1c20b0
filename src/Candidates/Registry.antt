-- ===== src/Candidates/Registry.antt =====
-- The append-only candidate registry of agentloopgate/candidates/registry.py. A registry is the
-- directory `candidates`: for each candidate, its check and its events in the order of their
-- ordinals.
pub mod Events
pub mod Registration
pub mod History
pub mod Stages
