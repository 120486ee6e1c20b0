-- ===== src/Examples/Evaluation.antt =====
-- The evaluation of runs at concrete inputs.
use agent_loop_gate.Base.{
  string_eq, true, false, not, none, some, List, [], ◌∷◌, Occurs, ok, value_of, count, values, ◌≡◌,
  ◌↔◌, refl,
}
use agent_loop_gate.Base.Decimals.{Decimal, whole}
use agent_loop_gate.Schemas.{
  pilot, RunSource, RuntimeHost, valid, infra_invalid, EvidenceStatus, ArtifactId,
}
use agent_loop_gate.Schemas.Run.{RunRecord}
use agent_loop_gate.Evaluation.Metrics.{
  EvaluationContext, EvaluationSummary, Tally, empty_tally, tally_runs,
}
use agent_loop_gate.Evaluation.Metrics.Summary.{costs_of, build_summary, summarize, summarize_total}
use agent_loop_gate.Evaluation.Metrics.Counts.{is_valid_run, is_scored_success, summarize-counts}
use agent_loop_gate.Evaluation.Metrics.Coverage.{summarize-covers}
use agent_loop_gate.Base.{inl, arith}
use agent_loop_gate.Evaluation.Metrics.Compare.{
  EvaluationComparison, compare, IsLost, compare-IsLost,
}
use agent_loop_gate.Evaluation.Reset.{
  InfraChecks, IsSound, assess_infrastructure, assess_infrastructure-IsSound,
}

abbrev context : EvaluationContext
context = record {
  pool = pilot;
  snapshot_id = "b0";
  candidate_id = some "c1";
  expected_task_ids = "t1" ∷ [];
  trials = 2;
}

abbrev run : RunRecord
run = record {
  run_id = "r1";
  attempt_id = "a1";
  task_id = "t1";
  pool = pilot;
  snapshot_id = "b0";
  candidate_id = some "c1";
  source = RunSource.dsh;
  runtime_host = RuntimeHost.tau3;
  runtime_version = "1";
  runtime_profile = some "p";
  composition_digest = some "d";
  model_id = "m";
  benchmark_commit = "abc";
  objective_digest = "o";
  split_digest = "s";
  initial_state_digest = "i";
  terminal_state_digest = "t";
  trial_index = 1;
  run_validity = valid;
  success = some true;
  critical_violations = [];
  input_tokens = 10;
  output_tokens = 20;
  latency_ms = 300;
  cost = some (whole 2);
  source_trace_ref = "s1";
  evidence_receipt_ref = "e1";
  created_at = "t0";
}

abbrev failed_run : RunRecord
failed_run = record run { run_id = "r2"; trial_index = 2; success = some false }

abbrev invalid_run : RunRecord
invalid_run = record run {
  run_id = "r3";
  trial_index = 2;
  run_validity = infra_invalid;
  success = none;
  cost = none;
}

abbrev runs : List RunRecord
runs = run ∷ invalid_run ∷ failed_run ∷ []

abbrev verified_ids : List ArtifactId
verified_ids = "r1" ∷ "r2" ∷ "r3" ∷ []

unfoldable tally : Tally
unfolding tally_runs
tally = value_of (tally_runs verified_ids context empty_tally runs) tt

tally-runs : tally_runs verified_ids context empty_tally runs ≡ ok tally
unfolding tally_runs tally
tally-runs = refl

abbrev costs : List Decimal
costs = whole 2 ∷ whole 2 ∷ []

tally-costs : costs_of (values tally.valid_by_pair) ≡ ok costs
unfolding costs_of tally tally_runs
tally-costs = refl

summarize_total_example :
    summarize verified_ids context runs ≡ ok (build_summary context tally costs)
summarize_total_example = summarize_total verified_ids context runs tally-runs tally-costs

abbrev summary : EvaluationSummary
summary = build_summary context tally costs

-- One success in two valid runs; the invalid run is set aside.
one_success : summary.pass_1_numerator ≡ 1
unfolding build_summary tally tally_runs
one_success = refl

summarize-counts_example :
    (summary.valid_run_count ≡ count is_valid_run runs)
    × (summary.infra_invalid_count ≡ count (λ r. not (is_valid_run r)) runs)
    × (summary.pass_1_numerator ≡ count is_scored_success runs)
    × (summary.pass_1_denominator ≡ count is_valid_run runs)
summarize-counts_example =
    summarize-counts verified_ids context runs
      (summarize_total verified_ids context runs tally-runs tally-costs)

abbrev baseline : EvaluationSummary
baseline = record summary {
  stable_task_outcomes = ("t1", true) ∷ [];
  task_success_counts = ("t1", 2) ∷ [];
}

abbrev lost : EvaluationSummary
lost = record summary {
  stable_task_outcomes = ("t1", false) ∷ [];
  task_success_counts = ("t1", 0) ∷ [];
}

unfoldable comparison : EvaluationComparison
unfolding compare build_summary
comparison = value_of (compare baseline lost) tt

comparison-compares : compare baseline lost ≡ ok comparison
unfolding compare comparison build_summary
comparison-compares = refl

compare-IsLost_example :
    Occurs "t1" comparison.catastrophic_task_ids
    ↔ IsLost "t1" baseline.stable_task_outcomes lost.task_success_counts
compare-IsLost_example = compare-IsLost baseline lost comparison-compares "t1"

abbrev checks : InfraChecks
checks = record {
  expected_initial_digest = "i";
  actual_initial_digest = "i";
  dependencies_ok = true;
  evaluator_ok = true;
  trace_status = EvidenceStatus.verified;
  shared_resources_ok = true;
  provider_error = false;
  retry_count = 0;
}

assess_infrastructure-IsSound_example :
    ((assess_infrastructure checks).run_validity ≡ valid) ↔ IsSound checks
assess_infrastructure-IsSound_example = assess_infrastructure-IsSound checks

summary_complete : summary.integrity_complete ≡ true
unfolding build_summary tally tally_runs
summary_complete = refl

summarize-covers_example :
    (r : RunRecord) × Occurs r runs
    × (r.task_id ≡ "t1")
    × (r.trial_index ≡ 2)
    × (r.run_validity ≡ valid)
summarize-covers_example =
    summarize-covers verified_ids context runs
      (summarize_total verified_ids context runs tally-runs tally-costs) summary_complete "t1" 2
      (inl refl) (omega arith) (omega arith)
