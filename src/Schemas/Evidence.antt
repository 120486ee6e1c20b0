-- ===== src/Schemas/Evidence.antt =====
-- Trace references and receipts of agentloopgate/schemas/models.py, and the check of
-- agentloopgate/traces/base.py that a trace may enter a gate.
use agent_loop_gate.Base.{
  ℕ, ◌+◌, ◌-◌, ◌≤◌, ◌≡◌, String, Bool, true, not, ◌&&◌, ◌||◌, Option, none, some, Result, ok,
  raise_if, ◌>>◌, leb, ◌==◌, same, same_iff, is_some, str_eq, if◌then◌else◌, arith,
}
use agent_loop_gate.Schemas.Enums.{
  RuntimeHost, PersistenceKind, IngestMode, mirror, ingest_mode_eq, EvidenceStatus, verified,
  incomplete, evidence_status_eq,
}
use agent_loop_gate.Schemas.Texts.{Digest, ArtifactId, NonEmpty, UtcDateTime}

pub record SourceTraceRef : Type 0 where
  pub source_trace_id : ArtifactId
  pub runtime_host : RuntimeHost
  pub source_locator : NonEmpty
  pub session_id_hash : Digest
  pub event_seq_start : ℕ
  pub event_seq_end : ℕ
  pub event_count : ℕ
  pub source_revision : NonEmpty
  pub persistence_kind : PersistenceKind
  pub ingest_mode : IngestMode
  pub mirror_path : Option String
  pub mirror_digest : Option Digest
  pub cursor_complete : Bool
  pub evidence_status : EvidenceStatus
  pub created_at : UtcDateTime

-- `not value` of an optional text.
abbrev pub is_blank : Option String → Bool
is_blank none = true
is_blank (some s) = str_eq s ""

-- The test of the ingest mode against the mirror's two fields.
check_mirror : SourceTraceRef → Result String (Unit {0})
check_mirror r =
    if same r.ingest_mode mirror
    then raise_if (is_blank r.mirror_path || is_blank r.mirror_digest)
        "mirror mode requires mirror_path and mirror_digest"
    else raise_if (is_some r.mirror_path || is_some r.mirror_digest)
        "reference mode cannot claim mirror artifacts"

-- `evidence_range_and_mode_are_consistent`. The source subtracts in signed integers: its count
-- `end - start + 1` is at most 0 just when `end + 1 <= start`.
unfoldable pub check_trace_ref : SourceTraceRef → Result String (Unit {0})
unfolding check_mirror
check_trace_ref r = do
  raise_if (r.event_count == 0) "event_count"
  raise_if (leb (r.event_seq_end + 1) r.event_seq_start) "event sequence range must be increasing"
  raise_if (r.cursor_complete && not (r.event_count == r.event_seq_end + 1 - r.event_seq_start))
      "complete cursor count must match the inclusive event sequence range"
  raise_if (not r.cursor_complete && leb (r.event_seq_end + 1 - r.event_seq_start) r.event_count)
      "incomplete cursor must contain fewer events than its sequence span"
  check_mirror r
  raise_if (same r.evidence_status verified && not r.cursor_complete)
      "verified evidence requires a complete cursor"
  ok tt

pub record EvidenceReceipt : Type 0 where
  pub receipt_id : ArtifactId
  pub source_trace_id : ArtifactId
  pub run_id : ArtifactId
  pub event_seq_start : ℕ
  pub event_seq_end : ℕ
  pub event_count : ℕ
  pub redaction_policy_digest : Digest
  pub normalized_record_digest : Digest
  pub collected_at : UtcDateTime
  pub error_count : ℕ

-- `event_count_matches_range`, whose difference is signed too: the count is at least 1.
unfoldable pub check_receipt : EvidenceReceipt → Result String (Unit {0})
check_receipt r = do
  raise_if (r.event_count == 0) "event_count"
  raise_if (not (r.event_count + r.event_seq_start == r.event_seq_end + 1))
      "event_count must match the inclusive event sequence range"
  ok tt

pub data TraceError : Type 0 where
  evidence_incomplete evidence_integrity : TraceError

unfoldable pub require_verified_for_gate : SourceTraceRef → Result TraceError (Unit {0})
require_verified_for_gate r = do
  raise_if (same r.evidence_status incomplete || not r.cursor_complete) evidence_incomplete
  raise_if (not (same r.evidence_status verified)) evidence_integrity
  ok tt

-- A trace reference that was validated and that may enter a gate is verified, and holds every
-- event of its sequence range: its count is the length of a range that is not empty.
pub gate_evidence_has_no_gap :
    (r : SourceTraceRef)
    → check_trace_ref r ≡ ok tt
    → require_verified_for_gate r ≡ ok tt
    → (r.evidence_status ≡ verified)
      × (r.event_seq_start + r.event_count ≡ r.event_seq_end + 1)
      × (1 ≤ r.event_count)
unfolding check_trace_ref require_verified_for_gate
gate_evidence_has_no_gap r h k = ground (arith, same_iff r.evidence_status verified)
