-- ===== src/Snapshots.antt =====
-- The active snapshot of agentloopgate/snapshots/manager.py: activation as a transaction with a
-- journal, its recovery, and rollback. The store is a state that each operation takes and returns;
-- the pattern of ids and the digests are parameters. Listings of files and dictionaries have each
-- path once, so two of them are equal if they have the same entries; the activation lock is taken
-- for granted.
pub mod Models
pub mod Manager
pub mod Live
pub mod Writes
pub mod Stages
pub mod Recovery
pub mod Rollback
