-- ===== src/Examples.antt =====
-- The theorems of the library at concrete inputs.
mod Gates
mod Selection
mod Splits
mod Ledger
mod Tasks
mod Attempts
mod Snapshots
mod Statistics
mod Evaluation
mod Mutation
mod Candidates
mod Diagnosis
