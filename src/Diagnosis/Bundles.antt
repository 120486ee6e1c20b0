-- ===== src/Diagnosis/Bundles.antt =====
-- The ranked failure bundles of agentloopgate/diagnosis/service.py. Parameters: the canonical digest,
-- the JSON text of a bundle, and Python's strip and casefold.
use Prim.Native.String.{◌++◌ as str_append}
use text.Mathlib.Text.{starts_with}
use agent_loop_gate.Base.{
  ℕ, suc, String, Bool, not, ◌&&◌, ◌||◌, Option, none, some, List, [], ◌∷◌, ◌++◌, Result, ok,
  raise_if, ◌>>◌, ◌>>=◌, same, lookup, insert, map, any, distinct, length, str_eq, string_eq,
  product_eq, Eq, if◌then◌else◌,
}
use agent_loop_gate.Base.Decimals.{Decimal, whole, mul, lt}
use agent_loop_gate.Base.Sorting.{sorted, str_lt, lex}
use agent_loop_gate.Base.Texts.{take_text, drop_text, upper_hex}
use agent_loop_gate.Schemas.{
  Digest, ArtifactId, NonEmpty, update_source, pool_eq, failure_type_eq, AssetFamily,
  prompt_instruction, context_memory_skill, retrieval_search_policy, tool_contract_routing,
  orchestration_state, middleware_runtime_code, FailureType, retrieval_miss,
  document_selection_error, cross_document_reasoning_error, policy_application_error,
  tool_discovery_error, tool_selection_error, tool_parameter_error, action_order_error,
  state_verification_error, recovery_error, user_claim_overtrust, spec_or_evaluator_issue,
  infra_failure, unknown,
}
use agent_loop_gate.Schemas.Candidate.{
  ChangeBudget, objective, grader, evaluator, split, gate, final_access, FailureBundle,
}
use agent_loop_gate.Diagnosis.{
  DiagnosticSignals, DiagnosisError, not_from_update_source, protected_terms_leaked, classify,
}

pub record BundlePolicy : Type 0 where
  pub summary : NonEmpty
  pub families : List AssetFamily
  pub expected : NonEmpty
  pub budget : ChangeBudget

abbrev policy : NonEmpty → List AssetFamily → NonEmpty → ℕ → ℕ → BundlePolicy
policy summary families expected files lines = record {
  summary = summary;
  families = families;
  expected = expected;
  budget = record { max_files = files; max_changed_lines = lines };
}

-- `_BUNDLE_POLICY`
unfoldable pub bundle_policy : FailureType → BundlePolicy
bundle_policy retrieval_miss =
    policy "The agent did not obtain the policy evidence needed before deciding."
      (retrieval_search_policy ∷ context_memory_skill ∷ [])
      "Require retrieval and evidence confirmation before policy application." 4 160
bundle_policy document_selection_error =
    policy "The retrieved evidence set did not cover all required policy conditions."
      (retrieval_search_policy ∷ context_memory_skill ∷ [])
      "Improve evidence selection without exposing protected evaluation content." 4 160
bundle_policy cross_document_reasoning_error =
    policy "The agent found supporting evidence but failed to combine its conditions correctly."
      (context_memory_skill ∷ prompt_instruction ∷ [])
      "Make multi-source condition checks explicit before any consequential action." 4 160
bundle_policy policy_application_error =
    policy "The agent had sufficient evidence but applied a policy condition incorrectly."
      (context_memory_skill ∷ prompt_instruction ∷ [])
      "Require explicit prerequisite and exception checks before acting." 4 160
bundle_policy tool_discovery_error =
    policy "The agent did not discover an available capability required by the task."
      (tool_contract_routing ∷ context_memory_skill ∷ [])
      "Make capability discovery deterministic before declaring an action unavailable." 3 120
bundle_policy tool_selection_error =
    policy "The agent selected a capability that did not match the intended operation."
      (tool_contract_routing ∷ [])
      "Route intents to the correct registered capability and preserve policy checks." 3 120
bundle_policy tool_parameter_error =
    policy "The selected capability received incomplete or invalid parameters."
      (tool_contract_routing ∷ prompt_instruction ∷ [])
      "Validate required arguments and evidence-derived values before execution." 3 120
bundle_policy action_order_error =
    policy "The agent executed valid operations in an unsafe or semantically incorrect order."
      (orchestration_state ∷ tool_contract_routing ∷ [])
      "Enforce prerequisite transitions before consequential operations." 4 180
bundle_policy state_verification_error =
    policy "The agent did not verify the terminal state before reporting completion."
      (orchestration_state ∷ prompt_instruction ∷ [])
      "Require read-after-write verification before a success claim." 4 160
bundle_policy recovery_error =
    policy "The agent failed to recover safely after a detectable execution error."
      (orchestration_state ∷ middleware_runtime_code ∷ [])
      "Add bounded recovery with verification and an explicit stop condition." 5 200
bundle_policy user_claim_overtrust =
    policy "The agent accepted an unverified user claim for a consequential decision."
      (prompt_instruction ∷ context_memory_skill ∷ [])
      "Require authoritative evidence for consequential user claims." 3 120
bundle_policy spec_or_evaluator_issue =
    policy "The observed outcome conflicts with available evaluator evidence."
      (middleware_runtime_code ∷ [])
      "Hold candidate generation until the evaluation incident is resolved." 1 40
bundle_policy infra_failure =
    policy "The run was invalidated by infrastructure rather than agent behavior."
      (middleware_runtime_code ∷ []) "Restore infrastructure integrity and rerun symmetrically." 3
      120
bundle_policy unknown =
    policy "The available evidence is insufficient for a narrower failure class."
      (prompt_instruction ∷ [])
      "Collect additional verified evidence before making a targeted change." 2 80

pub record RankedFailureBundle : Type 0 where
  pub priority : Decimal
  pub affected_task_count : ℕ
  pub bundle : FailureBundle

abbrev pub GroupKey : Type 0
GroupKey = ArtifactId × FailureType

instance abbrev pub group_key_eq : Eq GroupKey
group_key_eq = product_eq string_eq failure_type_eq

abbrev pub Groups : Type 0
Groups = List (GroupKey × List DiagnosticSignals)

abbrev pub items_of : Option (List DiagnosticSignals) → List DiagnosticSignals
items_of none = []
items_of (some items) = items

-- The loop over the signals.
unfoldable pub group_signals : Groups → List DiagnosticSignals → Result DiagnosisError Groups
unfolding classify
group_signals groups [] = ok groups
group_signals groups (s ∷ rest) = do
  raise_if (not (same s.pool update_source)) not_from_update_source
  type ← classify s
  group_signals
      (insert (s.snapshot_id, type) (items_of (lookup (s.snapshot_id, type) groups) ++ (s ∷ []))
        groups)
      rest

-- `max(...)`, from zero, since no value is negative.
unfoldable pub max_impact : Decimal → List DiagnosticSignals → Decimal
unfolding mul
max_impact best [] = best
max_impact best (s ∷ rest) =
    let value = mul (mul s.user_value_loss s.risk_weight) s.fixability in
    max_impact (if lt best value then value else best) rest

-- `t in s`
unfoldable pub is_in_text : String → String → Bool
is_in_text t String.[] = str_eq t String.[]
is_in_text t (String.◌∷◌ c s) = starts_with (String.◌∷◌ c s) t || is_in_text t s

-- `Iterable[str]`: what each iteration over it yields, the first one at zero.
abbrev pub Iterable : Type 0
Iterable = ℕ → List String

-- What the identity of a bundle is computed from.
pub record BundleIdentity : Type 0 where
  pub snapshot_id : ArtifactId
  pub failure_type : FailureType
  pub run_ids : List ArtifactId

-- `digest.removeprefix("sha256:")[:16].upper()`
unfoldable pub identity_text : Digest → String
identity_text d = upper_hex (take_text 16 (if starts_with d "sha256:" then drop_text 7 d else d))

module _ (canonical_digest : BundleIdentity → Digest) (json_text : FailureBundle → String)
    (strip casefold : String → String) where
  unfoldable pub failure_bundle : ArtifactId → FailureType → List DiagnosticSignals → FailureBundle
  unfolding bundle_policy identity_text sorted
  failure_bundle snapshot_id type items =
      let run_ids = sorted str_lt (distinct (map (λ s. s.run_id) items)) in
      record {
        failure_bundle_id = str_append "FB_" (
            identity_text (
              canonical_digest
                (record { snapshot_id = snapshot_id; failure_type = type; run_ids = run_ids })));
        snapshot_id = snapshot_id;
        failure_type = type;
        affected_run_ids = run_ids;
        evidence_refs = sorted str_lt (distinct (map (λ s. s.evidence_ref) items));
        redacted_summary = (bundle_policy type).summary;
        target_asset_families = (bundle_policy type).families;
        expected_behavior_change = (bundle_policy type).expected;
        must_not_change = objective ∷ grader ∷ evaluator ∷ split ∷ gate ∷ final_access ∷ [];
        budget = (bundle_policy type).budget;
      }

  unfoldable pub is_leaked : FailureBundle → String → Bool
  unfolding is_in_text
  is_leaked bundle term =
      not (str_eq (strip term) "")
      && is_in_text (casefold (strip term)) (casefold (json_text bundle))

  -- `_build_group`
  unfoldable pub build_group :
      List String → GroupKey → List DiagnosticSignals → Result DiagnosisError RankedFailureBundle
  unfolding failure_bundle is_leaked max_impact mul
  build_group terms (snapshot_id, type) items = do
    raise_if (any (is_leaked (failure_bundle snapshot_id type items)) terms) protected_terms_leaked
    ok (record {
      priority =
          mul (whole (length (distinct (map (λ s. s.task_id) items)))) (max_impact (whole 0) items);
      affected_task_count = length (distinct (map (λ s. s.task_id) items));
      bundle = failure_bundle snapshot_id type items;
    })

  -- `_build_group` iterates over the terms once, so the n-th group gets what the n-th iteration
  -- yields.
  unfoldable pub build_groups :
      Iterable → ℕ → Groups → Result DiagnosisError (List RankedFailureBundle)
  unfolding build_group
  build_groups terms n [] = ok []
  build_groups terms n ((key, items) ∷ rest) = do
    first ← build_group (terms n) key items
    others ← build_groups terms (suc n) rest
    ok (first ∷ others)

  unfoldable pub ranks_before : RankedFailureBundle → RankedFailureBundle → Bool
  unfolding str_lt
  ranks_before = lex (
      (λ a b. lt b.priority a.priority)
      ∷ (λ a b. str_lt a.bundle.failure_bundle_id b.bundle.failure_bundle_id)
      ∷ [])

  -- `build_bundles`
  unfoldable pub build_bundles :
      List DiagnosticSignals → Iterable → Result DiagnosisError (List RankedFailureBundle)
  unfolding group_signals build_groups sorted ranks_before
  build_bundles signals terms = do
    groups ← group_signals [] signals
    ranked ← build_groups terms 0 groups
    ok (sorted ranks_before ranked)
