-- ===== src/Examples/Diagnosis.antt =====
-- The failure funnel at concrete inputs.
use agent_loop_gate.Base.{
  zero, suc, IsOk, String, List, [], ◌∷◌, map, value_of, true, false, none, some, ok, err, ◌≡◌, ◌↔◌,
  refl,
}
use agent_loop_gate.Base.Decimals.{whole}
use agent_loop_gate.Schemas.{
  Digest, valid, infra_invalid, update_source, infra_failure, tool_selection_error,
}
use agent_loop_gate.Diagnosis.{
  DiagnosticSignals, check_signals, classify, DiagnosisError, protected_terms_leaked,
  classify-infra_iff, classify-error_iff,
}
use agent_loop_gate.Schemas.Candidate.{FailureBundle}
use agent_loop_gate.Diagnosis.Bundles.{BundleIdentity, RankedFailureBundle, build_bundles, Iterable}

-- A failed run that found the tool and chose the wrong one.
abbrev signals : DiagnosticSignals
signals = record {
  run_id = "r1";
  task_id = "t1";
  snapshot_id = "b0";
  pool = update_source;
  run_validity = valid;
  success = some false;
  evidence_ref = "e";
  retrieval_required = false;
  retrieval_attempted = false;
  retrieved_document_count = 0;
  required_document_count = 0;
  gold_document_coverage = none;
  cross_document_reasoning_correct = none;
  policy_application_correct = none;
  tool_required = true;
  tool_discovered = some true;
  tool_selected_correctly = some false;
  tool_parameters_correct = none;
  action_order_correct = none;
  terminal_state_verified = none;
  recovery_required = false;
  recovery_succeeded = none;
  overtrusts_user_claim = false;
  evaluator_conflict = false;
  user_value_loss = whole 1;
  risk_weight = whole 1;
  fixability = whole 1;
}

signals-check : check_signals signals ≡ ok tt
unfolding check_signals
signals-check = refl

wrong_tool : classify signals ≡ ok tool_selection_error
unfolding classify
wrong_tool = refl

classify-infra_iff_example :
    (classify signals ≡ ok infra_failure) ↔ (signals.run_validity ≡ infra_invalid)
classify-infra_iff_example = classify-infra_iff signals

classify-error_iff_example :
    ((e : DiagnosisError) × (classify signals ≡ err e))
    ↔ ((signals.run_validity ≡ valid) × (signals.success ≡ some true))
classify-error_iff_example = classify-error_iff signals

abbrev digest_of : BundleIdentity → Digest
digest_of i = "sha256:0123456789abcdef0123"

abbrev summary_text : FailureBundle → String
summary_text b = b.redacted_summary

abbrev unchanged : String → String
unchanged s = s

-- A second run of the same failure, and a protected term that no bundle has.
abbrev failures : List DiagnosticSignals
failures = record signals { run_id = "r0"; user_value_loss = whole 2 } ∷ signals ∷ []

-- A list or another collection, which yields the same each time.
abbrev collection : List String → Iterable
collection terms n = terms

-- An iterator, which the first iteration exhausts.
abbrev iterator : List String → Iterable
iterator terms zero = terms
iterator terms (suc n) = []

abbrev terms : Iterable
terms = collection ("gold_answer" ∷ "" ∷ [])

unfoldable ranked : List RankedFailureBundle
unfolding build_bundles
ranked = value_of (build_bundles digest_of summary_text unchanged unchanged failures terms) tt

one_bundle :
    map (λ r. r.bundle.failure_bundle_id ∷ r.bundle.affected_run_ids) ranked
    ≡ (("FB_0123456789ABCDEF" ∷ "r0" ∷ "r1" ∷ []) ∷ [])
unfolding ranked build_bundles
one_bundle = refl

-- The same failure in a second snapshot, and a protected term that stands in its bundle only.
abbrev two_snapshots : List DiagnosticSignals
two_snapshots = signals ∷ record signals { snapshot_id = "b1" } ∷ []

abbrev snapshot_text : FailureBundle → String
snapshot_text b = b.snapshot_id

refuses_collection :
    build_bundles digest_of snapshot_text unchanged unchanged two_snapshots (collection ("b1" ∷ []))
    ≡ err protected_terms_leaked
unfolding build_bundles
refuses_collection = refl

-- An iterator of the same terms is exhausted before the second bundle, which is accepted.
accepts_iterator :
    IsOk (
      build_bundles digest_of snapshot_text unchanged unchanged two_snapshots
        (iterator ("b1" ∷ [])))
unfolding build_bundles
accepts_iterator = tt
