-- ===== src/Diagnosis.antt =====
-- The failure funnel of agentloopgate/diagnosis.
use agent_loop_gate.Base.{
  arith, ℕ, String, Bool, true, false, not, ◌&&◌, ◌||◌, Option, none, some, Result, ok, err,
  raise_if, ◌>>◌, same, is_none, is_some, ltb, ◌==◌, if◌then◌else◌, ◌≡◌, ◌↔◌, refl, ap,
}
use agent_loop_gate.Base.Decimals.{Decimal}
use agent_loop_gate.Schemas.{
  Pool, RunValidity, valid, infra_invalid, run_validity_eq, FailureType, retrieval_miss,
  document_selection_error, cross_document_reasoning_error, policy_application_error,
  tool_discovery_error, tool_selection_error, tool_parameter_error, action_order_error,
  state_verification_error, recovery_error, user_claim_overtrust, spec_or_evaluator_issue,
  infra_failure, unknown, ArtifactId, NonEmpty,
}
pub mod Bundles
pub mod Texts
pub mod Coverage

pub record DiagnosticSignals : Type 0 where
  pub run_id : ArtifactId
  pub task_id : ArtifactId
  pub snapshot_id : ArtifactId
  pub pool : Pool
  pub run_validity : RunValidity
  pub success : Option Bool
  pub evidence_ref : NonEmpty
  pub retrieval_required : Bool
  pub retrieval_attempted : Bool
  pub retrieved_document_count : ℕ
  pub required_document_count : ℕ
  pub gold_document_coverage : Option Bool
  pub cross_document_reasoning_correct : Option Bool
  pub policy_application_correct : Option Bool
  pub tool_required : Bool
  pub tool_discovered : Option Bool
  pub tool_selected_correctly : Option Bool
  pub tool_parameters_correct : Option Bool
  pub action_order_correct : Option Bool
  pub terminal_state_verified : Option Bool
  pub recovery_required : Bool
  pub recovery_succeeded : Option Bool
  pub overtrusts_user_claim : Bool
  pub evaluator_conflict : Bool
  pub user_value_loss : Decimal
  pub risk_weight : Decimal
  pub fixability : Decimal

-- `value is True`, as a condition, and `value is False`.
abbrev is_set : Option Bool → Bool
is_set (some true) = true
is_set _ = false

abbrev is_unset : Option Bool → Bool
is_unset (some false) = true
is_unset _ = false

-- The bounds of the weights and `state_is_coherent`.
unfoldable pub check_signals : DiagnosticSignals → Result String (Unit {0})
check_signals s = do
  raise_if (s.risk_weight.coeff == 0 || s.fixability.coeff == 0) "risk_weight and fixability"
  raise_if (same s.run_validity valid && is_none s.success)
      "valid diagnostic signals require success"
  raise_if (same s.run_validity infra_invalid && is_some s.success)
      "infra_invalid diagnostic signals cannot report agent success"
  raise_if (s.tool_required && is_none s.tool_discovered)
      "tool-required signals must report discovery"
  raise_if (is_set s.tool_discovered && is_none s.tool_selected_correctly)
      "discovered tool signals must report selection correctness"
  raise_if (is_set s.tool_selected_correctly && is_none s.tool_parameters_correct)
      "selected tool signals must report parameter correctness"
  raise_if (s.recovery_required && is_none s.recovery_succeeded)
      "recovery-required signals must report recovery outcome"
  ok tt

pub data DiagnosisError : Type 0 where
  successful_run not_from_update_source protected_terms_leaked : DiagnosisError

-- The tests of `classify` in order, from the last ones.
abbrev closing_stage : DiagnosticSignals → FailureType
closing_stage s =
    if is_unset s.action_order_correct
    then action_order_error
    else if is_unset s.terminal_state_verified
    then state_verification_error
    else if s.recovery_required && is_unset s.recovery_succeeded
    then recovery_error
    else unknown

abbrev tool_stage : DiagnosticSignals → FailureType
tool_stage s =
    if s.tool_required && is_unset s.tool_discovered
    then tool_discovery_error
    else if s.tool_required && is_unset s.tool_selected_correctly
    then tool_selection_error
    else if s.tool_required && is_unset s.tool_parameters_correct
    then tool_parameter_error
    else closing_stage s

abbrev retrieval_stage : DiagnosticSignals → FailureType
retrieval_stage s =
    if s.retrieval_required && (not s.retrieval_attempted || s.retrieved_document_count == 0)
    then retrieval_miss
    else if s.retrieval_required && is_unset s.gold_document_coverage
    then document_selection_error
    else if s.retrieval_required
        && (ltb 1 s.required_document_count && is_unset s.cross_document_reasoning_correct)
    then cross_document_reasoning_error
    else if is_unset s.policy_application_correct
    then policy_application_error
    else tool_stage s

abbrev agent_stage : DiagnosticSignals → FailureType
agent_stage s =
    if s.evaluator_conflict
    then spec_or_evaluator_issue
    else if s.overtrusts_user_claim
    then user_claim_overtrust
    else retrieval_stage s

abbrev classify_valid : DiagnosticSignals → Option Bool → Result DiagnosisError FailureType
classify_valid s (some true) = err successful_run
classify_valid s _ = ok (agent_stage s)

abbrev classify_run : DiagnosticSignals → RunValidity → Result DiagnosisError FailureType
classify_run s infra_invalid = ok infra_failure
classify_run s valid = classify_valid s s.success

-- `classify`
unfoldable pub classify : DiagnosticSignals → Result DiagnosisError FailureType
classify s = classify_run s s.run_validity

abbrev is_infra : FailureType → Bool
is_infra infra_failure = true
is_infra _ = false

closing_stage-is_infra : (s : DiagnosticSignals) → is_infra (closing_stage s) ≡ false
closing_stage-is_infra s = ground arith

tool_stage-is_infra : (s : DiagnosticSignals) → is_infra (tool_stage s) ≡ false
tool_stage-is_infra s = ground (arith, closing_stage-is_infra s)

retrieval_stage-is_infra : (s : DiagnosticSignals) → is_infra (retrieval_stage s) ≡ false
retrieval_stage-is_infra s = ground (arith, tool_stage-is_infra s)

agent_stage-is_infra : (s : DiagnosticSignals) → is_infra (agent_stage s) ≡ false
agent_stage-is_infra s = ground (arith, retrieval_stage-is_infra s)

is_infra_of : Result DiagnosisError FailureType → Bool
is_infra_of (ok f) = is_infra f
is_infra_of (err e) = false

valid-run : (s : DiagnosticSignals) (o : Option Bool) → is_infra_of (classify_valid s o) ≡ false
unfolding is_infra_of
valid-run s none = agent_stage-is_infra s
valid-run s (some false) = agent_stage-is_infra s
valid-run s (some true) = refl

infra_differs : {P : Type 0} {b : Bool} → b ≡ true → b ≡ false → P
infra_differs h k = cc (h, k)

run-infra :
    (s : DiagnosticSignals) (v : RunValidity)
    → (classify_run s v ≡ ok infra_failure) ↔ (v ≡ infra_invalid)
unfolding is_infra_of
run-infra s infra_invalid = (λ h. refl, λ h. refl)
run-infra s valid = (λ h. infra_differs (ap is_infra_of h) (valid-run s s.success), λ h. cc h)

-- A run is classed as an infrastructure failure exactly when the infrastructure invalidated it:
-- no signal of the agent's behaviour leads to that class, and none hides it.
pub classify-infra_iff :
    (s : DiagnosticSignals) → (classify s ≡ ok infra_failure) ↔ (s.run_validity ≡ infra_invalid)
unfolding classify
classify-infra_iff s = run-infra s s.run_validity

success-error :
    (s : DiagnosticSignals) (o : Option Bool)
    → ((e : DiagnosisError) × (classify_valid s o ≡ err e)) ↔ (o ≡ some true)
success-error s none = (λ (e, h). cc h, λ h. cc h)
success-error s (some false) = (λ (e, h). cc h, λ h. cc h)
success-error s (some true) = (λ h. refl, λ h. (successful_run, refl))

run-error :
    (s : DiagnosticSignals) (v : RunValidity)
    → ((e : DiagnosisError) × (classify_run s v ≡ err e)) ↔ ((v ≡ valid) × (s.success ≡ some true))
run-error s infra_invalid = (λ (e, h). cc h, λ h. cc h.0)
run-error s valid =
    (λ h. (refl, (success-error s s.success).0 h), λ h. (success-error s s.success).1 h.1)

-- The funnel refuses a run, with any error at all, exactly when the run is valid and successful.
pub classify-error_iff :
    (s : DiagnosticSignals)
    → ((e : DiagnosisError) × (classify s ≡ err e))
      ↔ ((s.run_validity ≡ valid) × (s.success ≡ some true))
unfolding classify
classify-error_iff s = run-error s s.run_validity
