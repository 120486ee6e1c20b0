-- ===== src/Examples/Candidates.antt =====
-- The candidate registry at concrete inputs.
use agent_loop_gate.Base.{
  err, string_eq, true, none, some, List, [], ◌∷◌, map, lookup, ok, value_of, ◌≡◌, refl, inl,
}
use agent_loop_gate.Schemas.Texts.{is_artifact_id}
use agent_loop_gate.Base.Sorting.{sorted}
use agent_loop_gate.Schemas.{
  risk_l, AssetFamily, FailureType, CandidateStatus, checked, update_evaluated, selection_evaluated,
  release_evaluated, ship_recommended, shipped, Digest,
}
use agent_loop_gate.Schemas.Candidate.{
  CandidateRecord, FailureBundle, EffectMetric, EffectDirection,
}
use agent_loop_gate.Mutation.Models.{MutationPolicy, pass, passed, model_1_1}
use agent_loop_gate.Mutation.Checker.Verdicts.{CandidateCheckResult, within_policy}
use agent_loop_gate.Candidates.Registry.Events.{
  CandidateLifecycleEvent, Registry, CandidateError, events_at, transition,
}
use agent_loop_gate.Candidates.Registry.Registration.{Registration, register}
use agent_loop_gate.Candidates.Registry.History.{
  IsValid, IsHistory, after, transition-IsValid, register-IsValid,
}
use agent_loop_gate.Candidates.Registry.Stages.{route, shipped-stages}

abbrev bundle : FailureBundle
bundle = record {
  failure_bundle_id = "f1";
  snapshot_id = "b0";
  failure_type = FailureType.unknown;
  affected_run_ids = "r1" ∷ [];
  evidence_refs = "e" ∷ [];
  redacted_summary = "s";
  target_asset_families = AssetFamily.prompt_instruction ∷ [];
  expected_behavior_change = "x";
  must_not_change = [];
  budget = record { max_files = 2; max_changed_lines = 80 };
}

abbrev bundle_digest : FailureBundle → Digest
bundle_digest b = b.failure_bundle_id

abbrev policy : MutationPolicy
policy = record {
  schema_version = model_1_1;
  max_files = 4;
  max_changed_lines = 100;
  auto_executable_risks = risk_l ∷ [];
  hold_risks = [];
  protected_paths = [];
  trust_kernel_paths = [];
  forbidden_content_patterns = [];
  reject_unbound_static_capabilities = true;
  semantic_deduplication = true;
}

abbrev check_result : CandidateCheckResult
check_result = record {
  schema_version = model_1_1;
  disposition = pass;
  code = passed;
  message = within_policy;
  patch_digest = "d";
  changed_files = "prompt.md" ∷ [];
  additions = 2;
  deletions = 1;
  changed_lines = 3;
  asset_families = AssetFamily.prompt_instruction ∷ [];
  risk_tier = some risk_l;
  rollback_units = "prompt" ∷ [];
  auto_executable = true;
  semantic_tags = some [];
  semantic_fingerprint = some "b";
}

abbrev registration : Registration
registration = record {
  candidate_id = "c1";
  parent_snapshot_id = "b0";
  failure_bundle = bundle;
  updater = record { name = "u"; version = "1" };
  hypothesis = "h";
  patch_path = "candidates/c1/candidate.patch";
  predicted_effect = record {
    metric = EffectMetric.mean_cost;
    direction = EffectDirection.decrease;
  };
  created_at = "t0";
  check = check_result;
  stored_digest = "d";
}

unfoldable first : Registry
unfolding register is_artifact_id sorted
first = (register bundle_digest policy [] registration).0

register-IsValid_example : IsValid (register bundle_digest policy [] registration).0
register-IsValid_example = register-IsValid bundle_digest policy [] registration tt

-- The same fingerprint for the same bundle and parent is refused under another name.
duplicate_refused :
    (register bundle_digest policy first (record registration { candidate_id = "c2" })).1
    ≡ err (CandidateError.semantic_duplicate_of "c1")
unfolding register first is_artifact_id sorted
duplicate_refused = refl

unfoldable second : Registry
unfolding transition first is_artifact_id sorted
second = (value_of (transition first "c1" update_evaluated "core" [] "t1") tt).0

unfoldable evaluated : CandidateRecord
unfolding transition first is_artifact_id sorted
evaluated = (value_of (transition first "c1" update_evaluated "core" [] "t1") tt).1

first-moves : transition first "c1" update_evaluated "core" [] "t1" ≡ ok (second, evaluated)
unfolding transition second evaluated first is_artifact_id sorted
first-moves = refl

first-IsValid : IsValid first
unfolding first is_artifact_id sorted
first-IsValid = register-IsValid bundle_digest policy [] registration tt

transition-IsValid_example : IsValid second
transition-IsValid_example =
    transition-IsValid first "c1" update_evaluated "core" [] "t1" first-moves first-IsValid

-- A stage cannot be left out.
no_shortcut :
    transition first "c1" shipped "core" [] "t1"
    ≡ err (CandidateError.invalid_transition checked shipped)
unfolding transition first is_artifact_id sorted
no_shortcut = refl

abbrev moved : Registry → CandidateStatus → Registry
unfolding transition is_artifact_id sorted
moved g s = elim (transition g "c1" s "core" [] "t") [ ok r ↦ r.0 | err e ↦ [] ]

unfoldable last : Registry
unfolding first transition is_artifact_id sorted
last =
    moved
      (moved (moved (moved (moved first update_evaluated) selection_evaluated) release_evaluated)
        ship_recommended)
      shipped

unfoldable log : List CandidateLifecycleEvent
unfolding last is_artifact_id sorted
log = events_at (lookup "c1" last)

log-IsHistory : IsHistory none 0 log
unfolding log transition first is_artifact_id sorted
log-IsHistory = (
  refl,
  refl,
  refl,
  inl refl,
  (
    refl,
    refl,
    refl,
    refl,
    (
      refl,
      refl,
      refl,
      refl,
      (refl, refl, refl, refl, (refl, refl, refl, refl, (refl, refl, refl, refl, tt))),
    ),
  ),
)

log-ships : after none log ≡ some shipped
unfolding log transition first is_artifact_id sorted
log-ships = refl

shipped-stages_example :
    map (λ (e : CandidateLifecycleEvent). e.next_status) log ≡ checked ∷ route checked
shipped-stages_example = shipped-stages log log-IsHistory log-ships
