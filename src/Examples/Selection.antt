-- ===== src/Examples/Selection.antt =====
-- The selectors at concrete inputs.
use agent_loop_gate.Base.{
  string_eq, true, false, none, some, List, [], ◌∷◌, Occurs, ok, value_of, same_set, keys, ◌≡◌, ◌⊎◌,
  refl,
}
use agent_loop_gate.Base.Sorting.{sorted, min_by}
use agent_loop_gate.Base.Decimals.{whole}
use agent_loop_gate.Schemas.{Digest, NonEmpty}
use agent_loop_gate.Gates.Models.{
  CandidateSelectionInput, BaselineSelectionInput, SelectionPolicy, DualSelection, select, hold,
  check_selection,
}
use agent_loop_gate.Gates.Selection.{
  regressed, within_ratio, Measured, measure, reasons, select_with_baseline, select_candidates,
}
use agent_loop_gate.Gates.Selection.Eligible.{IsEligible, reasons-IsEligible, IsEligible-reasons}
use agent_loop_gate.Gates.Selection.Winner.{
  IsBest, select_with_baseline-Verdict, check_selection-select_candidates,
}

abbrev baseline : BaselineSelectionInput
baseline = record {
  snapshot_id = "b0";
  evaluation_complete = true;
  stable_success_task_count = 1;
  stable_task_outcomes = ("t1", true) ∷ ("t2", false) ∷ [];
  critical_violations = 0;
  mean_cost = whole 10;
  whole_attempt_cost_usd = whole 100;
  task_attempt_count = 8;
  retry_count = 1;
  timeout_count = 0;
  p50_latency_ms = whole 50;
  p95_latency_ms = whole 90;
  max_latency_ms = whole 99;
  operational_evidence_refs = "a" ∷ "b" ∷ "c" ∷ [];
}

abbrev policy : SelectionPolicy
policy = record {
  whole_attempt_cost_ratio_max = record { coeff = 12; scale = 1 };
  p95_latency_ratio_max = record { coeff = 15; scale = 1 };
  max_retry_increase = 1;
  max_timeout_increase = 0;
}

abbrev better : CandidateSelectionInput
better = record {
  candidate_id = "c1";
  native_score = none;
  native_rank = some 2;
  native_signal_ref = some "r";
  evaluation_complete = true;
  stable_success_task_count = 2;
  critical_violations = 0;
  mean_cost = whole 9;
  p50_latency_ms = whole 50;
  stable_task_outcomes = some (("t1", true) ∷ ("t2", true) ∷ []);
  whole_attempt_cost_usd = some (whole 110);
  task_attempt_count = some 8;
  retry_count = some 1;
  timeout_count = some 0;
  p95_latency_ms = some (whole 95);
  max_latency_ms = some (whole 99);
  operational_evidence_refs = some ("e" ∷ []);
}

-- It ranks first by the native signal, and loses a task that the baseline solves.
abbrev regressing : CandidateSelectionInput
regressing = record better {
  candidate_id = "c2";
  native_rank = some 1;
  stable_success_task_count = 1;
  stable_task_outcomes = some (("t1", false) ∷ ("t2", true) ∷ []);
}

abbrev ladder : List CandidateSelectionInput
ladder = regressing ∷ better ∷ []

abbrev ladder_digest : List CandidateSelectionInput → NonEmpty
ladder_digest cs = "ladder"

abbrev baseline_digest : BaselineSelectionInput → Digest
baseline_digest b = b.snapshot_id

abbrev policy_digest : SelectionPolicy → Digest
policy_digest p = "policy"

unfoldable selection : DualSelection
unfolding select_with_baseline
selection =
    value_of
      (select_with_baseline ladder_digest baseline_digest policy_digest ladder "c2" baseline policy)
      tt

selection-selects :
    select_with_baseline ladder_digest baseline_digest policy_digest ladder "c2" baseline policy
    ≡ ok selection
unfolding select_with_baseline selection
selection-selects = refl

-- The governed choice differs from the native one.
selected : selection.agentloopgate_candidate_id ≡ some "c1"
unfolding selection select_with_baseline regressed sorted within_ratio min_by
selected = refl

select_with_baseline-Verdict_example :
    ((selection.agentloopgate_decision ≡ some select)
      × ((m : Measured) × (selection.agentloopgate_candidate_id ≡ some m.item.candidate_id)
          × IsBest baseline policy ladder m))
    ⊎ ((selection.agentloopgate_decision ≡ some hold)
        × (selection.agentloopgate_candidate_id ≡ none)
        × ((c : CandidateSelectionInput) (n : Measured)
            → Occurs c ladder
            → measure baseline c ≡ ok n
            → ¬ IsEligible baseline policy n))
select_with_baseline-Verdict_example =
    select_with_baseline-Verdict ladder_digest baseline_digest policy_digest baseline policy ladder
      "c2" selection-selects

unfoldable full_selection : DualSelection
unfolding select_candidates
full_selection =
    value_of
      (select_candidates ladder_digest baseline_digest policy_digest ladder (some baseline)
        (some policy))
      tt

full_selection-selects :
    select_candidates ladder_digest baseline_digest policy_digest ladder
      (some baseline)
      (some policy)
    ≡ ok full_selection
unfolding select_candidates full_selection
full_selection-selects = refl

check_selection-select_candidates_example : check_selection full_selection ≡ ok tt
check_selection-select_candidates_example =
    check_selection-select_candidates ladder_digest baseline_digest policy_digest ladder
      (some baseline) (some policy) full_selection-selects

unfoldable measured : Measured
unfolding measure
measured = value_of (measure baseline better) tt

same_tasks : same_set (keys measured.outcomes) (keys baseline.stable_task_outcomes) ≡ true
unfolding measured
same_tasks = refl

no_reasons : reasons baseline policy measured ≡ []
unfolding reasons measured regressed sorted within_ratio
no_reasons = refl

eligible : IsEligible baseline policy measured
eligible = reasons-IsEligible baseline policy measured same_tasks no_reasons

reasons-IsEligible_example : IsEligible baseline policy measured
reasons-IsEligible_example = reasons-IsEligible baseline policy measured same_tasks no_reasons

IsEligible-reasons_example : reasons baseline policy measured ≡ []
IsEligible-reasons_example = IsEligible-reasons baseline policy measured same_tasks eligible
