-- ===== src/Ledger/Attempts.antt =====
-- The write-once ledger of experiment attempts, ExperimentAttemptLedger of
-- agentloopgate/experiment/ledger.py. A ledger is the dictionary of its files, by attempt and event.
-- Parameters: the canonical digest and the redaction of secrets; the new attempt ids, the times and
-- the durations are arguments.
pub mod Models
pub mod Events
pub mod Batches
