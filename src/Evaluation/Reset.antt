-- ===== src/Evaluation/Reset.antt =====
-- The infrastructure assessment of agentloopgate/evaluation/reset.py.
use agent_loop_gate.Base.{
  ℕ, Bool, true, false, not, List, [], ◌∷◌, ◌≡◌, ◌↔◌, refl, if◌then◌else◌, ltb, ◌&&◌, same,
  same_iff, eq_iff, str_eq,
}
use agent_loop_gate.Schemas.{
  EvidenceStatus, evidence_status_eq, RunValidity, valid, infra_invalid, Digest,
}

pub data InfraInvalidReason : Type 0 where
  reset_digest_mismatch dependency_unavailable evaluator_crash trace_missing : InfraInvalidReason
  shared_resource_failure provider_system_error : InfraInvalidReason

pub record InfraAssessment : Type 0 where
  pub run_validity : RunValidity
  pub reasons : List InfraInvalidReason
  pub retry_allowed : Bool

-- The observations that `assess_infrastructure` takes.
pub record InfraChecks : Type 0 where
  pub expected_initial_digest : Digest
  pub actual_initial_digest : Digest
  pub dependencies_ok : Bool
  pub evaluator_ok : Bool
  pub trace_status : EvidenceStatus
  pub shared_resources_ok : Bool
  pub provider_error : Bool
  pub retry_count : ℕ

abbrev reason_if : Bool → InfraInvalidReason → List InfraInvalidReason → List InfraInvalidReason
reason_if c r rs = if c then r ∷ rs else rs

abbrev is_reported : List InfraInvalidReason → Bool
is_reported [] = false
is_reported (r ∷ rs) = true

unfoldable pub infra_reasons : InfraChecks → List InfraInvalidReason
infra_reasons k =
    reason_if (not (str_eq k.expected_initial_digest k.actual_initial_digest)) reset_digest_mismatch
      (reason_if (not k.dependencies_ok) dependency_unavailable (
        reason_if (not k.evaluator_ok) evaluator_crash (
          reason_if (not (same k.trace_status EvidenceStatus.verified)) trace_missing (
            reason_if (not k.shared_resources_ok) shared_resource_failure
              (reason_if k.provider_error provider_system_error [])))))

unfoldable pub assess_infrastructure : InfraChecks → InfraAssessment
unfolding infra_reasons
assess_infrastructure k =
    let reasons = infra_reasons k in
    record {
      run_validity = if is_reported reasons then infra_invalid else valid;
      reasons = reasons;
      retry_allowed = is_reported reasons && ltb k.retry_count 1;
    }

-- Nothing is wrong with the run's infrastructure.
abbrev pub IsSound : InfraChecks → Type 0
IsSound k =
    (k.expected_initial_digest ≡ k.actual_initial_digest)
    × (k.dependencies_ok ≡ true)
    × (k.evaluator_ok ≡ true)
    × (k.trace_status ≡ EvidenceStatus.verified)
    × (k.shared_resources_ok ≡ true)
    × (k.provider_error ≡ false)

valid-reasons :
    (rs : List InfraInvalidReason)
    → ((if is_reported rs then infra_invalid else valid) ≡ valid) ↔ (rs ≡ [])
valid-reasons [] = (λ h. refl, λ h. refl)
valid-reasons (r ∷ rs) = (λ h. cc, λ h. cc)

reason_if-none :
    (c : Bool) (r : InfraInvalidReason) (rs : List InfraInvalidReason)
    → (reason_if c r rs ≡ []) ↔ ((c ≡ false) × (rs ≡ []))
reason_if-none true r rs = (λ h. cc, λ h. cc h.0)
reason_if-none false r rs = (λ h. (refl, h), λ h. h.1)

not_iff : (b : Bool) → (not b ≡ false) ↔ (b ≡ true)
not_iff true = (λ h. refl, λ h. refl)
not_iff false = (λ h. cc, λ h. cc)

-- A run is valid exactly when every infrastructure check holds: the initial state is the
-- expected one, the dependencies, the evaluator and the shared resources are sound, the
-- trace is verified and the provider reported no error.
pub assess_infrastructure-IsSound :
    (k : InfraChecks) → ((assess_infrastructure k).run_validity ≡ valid) ↔ IsSound k
unfolding assess_infrastructure infra_reasons
assess_infrastructure-IsSound k = (
  λ h.
      let r1 = (reason_if-none _ _ _).0 ((valid-reasons (infra_reasons k)).0 h) in
      let r2 = (reason_if-none _ _ _).0 r1.1 in
      let r3 = (reason_if-none _ _ _).0 r2.1 in
      let r4 = (reason_if-none _ _ _).0 r3.1 in
      let r5 = (reason_if-none _ _ _).0 r4.1 in
      let r6 = (reason_if-none _ _ _).0 r5.1 in
      (
        (eq_iff _ _).0 ((not_iff _).0 r1.0),
        (not_iff _).0 r2.0,
        (not_iff _).0 r3.0,
        (same_iff _ _).0 ((not_iff _).0 r4.0),
        (not_iff _).0 r5.0,
        r6.0,
      ),
  λ (d, a, b, t, s, p). rw ((eq_iff _ _).1 d, a, b, (same_iff _ _).1 t, s, p),
)
