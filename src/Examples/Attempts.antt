-- ===== src/Examples/Attempts.antt =====
-- The ledger of experiment attempts at concrete inputs.
use Prim.Native.String.{◌++◌ as str_append}
use agent_loop_gate.Base.{true, false, none, some, List, [], ◌∷◌, ok, value_of, ◌≡◌, refl}
use agent_loop_gate.Base.Int.{pos}
use agent_loop_gate.Base.Decimals.{whole}
use agent_loop_gate.Schemas.{Digest}
use agent_loop_gate.Runtime.Usage.{exact}
use agent_loop_gate.Ledger.Attempts.Models.{
  AttemptFields, ExperimentAttemptEvent, AttemptLedger, AttemptStart, AttemptEnd,
}
use agent_loop_gate.Ledger.Attempts.Events.{begin, complete, events_for_batch, has_completed_batch}
use agent_loop_gate.Ledger.Attempts.Batches.{has_completed_batch-complete}

abbrev canonical_digest : AttemptFields → Digest
canonical_digest f = str_append "sha256:" f.recorded_at

abbrev first_start : AttemptStart
first_start = record {
  operation = "run_batch";
  protocol_digest = "sha256:p";
  study_digest = none;
  source_revision = none;
  stage = some "selection";
  batch_id = some "batch1";
  snapshot_id = some "b0";
  candidate_id = none;
  spec_digest = some "sha256:spec";
  command = "tau" ∷ [];
  recovery_action = none;
}

abbrev end : AttemptEnd
end = record {
  exit_code = pos 0;
  resumed = false;
  accounting_status = exact;
  total_cost_lower_bound_usd = some (whole 2);
  cost_digest = "sha256:c";
  cost_artifact = "runs/cost.json";
  result_artifacts = [];
  counters = ("runs", pos 4) ∷ [];
  attempt_cost_status = none;
  attempt_known_cost_usd = none;
}

unfoldable begun : AttemptLedger × ExperimentAttemptEvent
unfolding begin
begun = value_of (begin canonical_digest "exp1" [] "ATT_1" "0a" first_start) tt

unfoldable ended : AttemptLedger × ExperimentAttemptEvent
unfolding begun begin complete
ended = value_of (complete canonical_digest begun.0 begun.1 "0b" 9 end) tt

not_yet : has_completed_batch canonical_digest begun.0 "batch1" "sha256:spec" ≡ ok false
unfolding has_completed_batch begun begin
not_yet = refl

unfoldable before : List ExperimentAttemptEvent
unfolding events_for_batch begun begin
before = value_of (events_for_batch canonical_digest begun.0 "batch1") tt

reads : events_for_batch canonical_digest begun.0 "batch1" ≡ ok before
unfolding before events_for_batch begun begin
reads = refl

in_batch : begun.1.fields.batch_id ≡ some "batch1"
unfolding begun begin
in_batch = refl

of_spec : begun.1.fields.spec_digest ≡ some "sha256:spec"
unfolding begun begin
of_spec = refl

completes : complete canonical_digest begun.0 begun.1 "0b" 9 end ≡ ok (ended.0, ended.1)
unfolding ended begun begin complete
completes = refl

has_completed_batch-complete_example :
    has_completed_batch canonical_digest ended.0 "batch1" "sha256:spec" ≡ ok true
has_completed_batch-complete_example =
    has_completed_batch-complete canonical_digest begun.0 ended.0 begun.1 ended.1 "0b" 9 end
      "batch1" "sha256:spec" before reads in_batch of_spec completes
