-- ===== src/Ledger/Attempts/Events.antt =====
-- The operations of ExperimentAttemptLedger.
use Prim.Native.String.{◌++◌ as str_append}
use agent_loop_gate.Base.{
  ℕ, String, Bool, not, ◌&&◌, some, List, [], ◌∷◌, Result, ok, raise_if, ◌>>◌, ◌>>=◌, same,
  contains, insert, keys, values, any, string_eq, option_eq, if◌then◌else◌, ltb,
}
use agent_loop_gate.Base.Int.{ℤ}
use agent_loop_gate.Base.Sorting.{sorted, str_lt, lex}
use agent_loop_gate.Base.Texts.{short_digest}
use agent_loop_gate.Schemas.{Digest, ArtifactId, UtcDateTime}
use agent_loop_gate.Runtime.Usage.{started, completed, attempt_state_eq, cost_status_eq}
use agent_loop_gate.Ledger.Attempts.Models.{
  AttemptFields, ExperimentAttemptEvent, event_path_eq, AttemptLedger, AttemptStart, AttemptEnd,
  AttemptFailure, check_attempt, start_fields, complete_fields, no_model_fields, fail_fields,
}

unfoldable pub event_id_of : Digest → ArtifactId
unfolding short_digest
event_id_of digest = str_append "EV_" (short_digest digest)

-- The order of `events_for_batch`: the time, STARTED first, and the id.
abbrev state_rank : ExperimentAttemptEvent → ℕ
state_rank e = if same e.fields.state started then 0 else 1

unfoldable pub comes_before : ExperimentAttemptEvent → ExperimentAttemptEvent → Bool
unfolding str_lt
comes_before = lex (
    (λ a b. str_lt a.fields.recorded_at b.fields.recorded_at)
    ∷ (λ a b. ltb (state_rank a) (state_rank b))
    ∷ (λ a b. str_lt a.event_id b.event_id)
    ∷ [])

module _ (canonical_digest : AttemptFields → Digest) where
  -- `_event`
  unfoldable pub make_event : AttemptFields → Result String ExperimentAttemptEvent
  unfolding check_attempt event_id_of
  make_event f = do
    check_attempt f
    ok (record {
      fields = f;
      event_id = event_id_of (canonical_digest f);
      event_digest = canonical_digest f;
    })

  -- `_verify_event`
  unfoldable pub verify_event : ExperimentAttemptEvent → Result String (Unit {0})
  unfolding event_id_of
  verify_event e = do
    raise_if (not (same (canonical_digest e.fields) e.event_digest)) "attempt event digest mismatch"
    raise_if (not (same e.event_id (event_id_of e.event_digest))) "attempt event id mismatch"
    ok tt

  -- `_append`, which creates a file that must not be there.
  unfoldable pub append_event : AttemptLedger → ExperimentAttemptEvent → Result String AttemptLedger
  unfolding verify_event
  append_event ledger e = do
    verify_event e
    raise_if (contains (e.fields.attempt_id, e.event_id) (keys ledger))
        "attempt ledger write failed"
    ok (insert (e.fields.attempt_id, e.event_id) e ledger)

  -- An event is made and appended.
  unfoldable pub record_event :
      AttemptLedger → AttemptFields → Result String (AttemptLedger × ExperimentAttemptEvent)
  unfolding make_event append_event
  record_event ledger f = do e ← make_event f; next ← append_event ledger e; ok (next, e)

  -- `begin`, whose event is the handle of the attempt.
  unfoldable pub begin :
      ArtifactId
      → AttemptLedger
      → ArtifactId
      → UtcDateTime
      → AttemptStart
      → Result String (AttemptLedger × ExperimentAttemptEvent)
  unfolding record_event
  begin experiment_id ledger attempt_id now a =
      record_event ledger (start_fields experiment_id attempt_id now a)

  unfoldable pub complete :
      AttemptLedger
      → ExperimentAttemptEvent
      → UtcDateTime
      → ℕ
      → AttemptEnd
      → Result String (AttemptLedger × ExperimentAttemptEvent)
  unfolding record_event
  complete ledger handle now ms a = record_event ledger (complete_fields handle.fields now ms a)

  unfoldable pub complete_no_model_operation :
      AttemptLedger
      → ExperimentAttemptEvent
      → UtcDateTime
      → ℕ
      → ℤ
      → List (String × Digest)
      → List (String × ℤ)
      → Result String (AttemptLedger × ExperimentAttemptEvent)
  unfolding record_event
  complete_no_model_operation ledger handle now ms exit_code artifacts counters =
      record_event ledger (no_model_fields handle.fields now ms exit_code artifacts counters)

  unfoldable pub fail :
      (String → String)
      → AttemptLedger
      → ExperimentAttemptEvent
      → UtcDateTime
      → ℕ
      → AttemptFailure
      → Result String (AttemptLedger × ExperimentAttemptEvent)
  unfolding record_event
  fail sanitize ledger handle now ms a =
      record_event ledger (fail_fields sanitize handle.fields now ms a)

  -- The loop over the files of `events_for_batch`, which are read in the order of the store.
  unfoldable pub batch_events :
      ArtifactId → List ExperimentAttemptEvent → Result String (List ExperimentAttemptEvent)
  unfolding check_attempt verify_event
  batch_events batch_id [] = ok []
  batch_events batch_id (e ∷ rest) = do
    check_attempt e.fields
    verify_event e
    others ← batch_events batch_id rest
    ok (if same e.fields.batch_id (some batch_id) then e ∷ others else others)

  unfoldable pub events_for_batch :
      AttemptLedger → ArtifactId → Result String (List ExperimentAttemptEvent)
  unfolding batch_events sorted comes_before
  events_for_batch ledger batch_id = do
    events ← batch_events batch_id (values ledger)
    ok (sorted comes_before events)

  unfoldable pub has_completed_batch : AttemptLedger → ArtifactId → Digest → Result String Bool
  unfolding events_for_batch
  has_completed_batch ledger batch_id spec_digest = do
    events ← events_for_batch ledger batch_id
    ok (
        any (λ e. same e.fields.state completed && same e.fields.spec_digest (some spec_digest))
          events)
