-- ===== src/Mutation/Checker/Executable.antt =====
-- Which checked patches of agentloopgate/mutation/service.py may be executed.
use agent_loop_gate.Base.{
  string_eq, String, Bool, true, false, not, ◌||◌, Option, none, some, List, [], ◌∷◌, ok,
  raise_if-eq-ok, contains, any, all, ◌==◌, ◌≡◌, ◌≢◌, refl, arith,
}
use agent_loop_gate.Schemas.{RiskTier, risk_tier_eq, risk_l, risk_m, risk_h, Digest, NonEmpty}
use agent_loop_gate.Schemas.Candidate.{ChangeBudget}
use agent_loop_gate.Mutation.Models.{
  HarnessAsset, HarnessAssetManifest, MutationPolicy, TrustKernelSnapshot, pass, check_policy,
  all_tiers,
}
use agent_loop_gate.Mutation.Patch.Files.{parse_patch-IsSafe}
use agent_loop_gate.Mutation.Checker.Verdicts.{CheckerHost, max_risk, is_held, is_auto}
use agent_loop_gate.Mutation.Checker.Check.{check, result}
use agent_loop_gate.Mutation.Checker.Requirements.{is_held-IsHighest}
use agent_loop_gate.Mutation.Checker.Admission.{IsRegistered, IsAdmissible-judge, check-pass_iff}

by_tier :
    (p : MutationPolicy) (r : RiskTier)
    → not (all (λ x. contains x p.auto_executable_risks || contains x p.hold_risks) all_tiers)
      ≡ false
    → contains r p.hold_risks ≡ false
    → contains r p.auto_executable_risks ≡ true
by_tier p risk_l e k = ground arith
by_tier p risk_m e k = ground arith
by_tier p risk_h e k = ground arith

-- A policy that its validator accepts executes every tier that it does not hold.
covered :
    (escapes : NonEmpty → Bool) (p : MutationPolicy) (r : RiskTier)
    → check_policy escapes p ≡ ok tt
    → contains r p.hold_risks ≡ false
    → contains r p.auto_executable_risks ≡ true
unfolding check_policy
covered escapes p r h k =
    let h1 =
      (raise_if-eq-ok (p.max_files == 0 || p.max_changed_lines == 0)
        "max_files and max_changed_lines" _ h).1 in
    let h2 =
      (raise_if-eq-ok (any (λ x. contains x p.hold_risks) p.auto_executable_risks)
        "risk tiers cannot be both auto-executable and held" _ h1).1 in
    let e =
      (raise_if-eq-ok
        (not (all (λ x. contains x p.auto_executable_risks || contains x p.hold_risks) all_tiers))
        "mutation policy must account for every risk tier" _ h2).0 in
    by_tier p r e k

auto-of :
    (escapes : NonEmpty → Bool) (policy : MutationPolicy) (o : Option RiskTier)
    → o ≢ none
    → check_policy escapes policy ≡ ok tt
    → is_held policy o ≡ false
    → is_auto policy pass o ≡ true
auto-of escapes policy none n h k = absurd (n refl)
auto-of escapes policy (some r) n h k = covered escapes policy r h k

module _ (host : CheckerHost) (manifest : HarnessAssetManifest) (policy : MutationPolicy)
    (kernel : TrustKernelSnapshot) where
  max_risk-some :
      (files : List String) (assets : List HarnessAsset)
      → files ≢ []
      → IsRegistered host manifest policy kernel files assets
      → max_risk assets ≢ none
  max_risk-some [] assets n h e = n refl
  max_risk-some (f ∷ fs) [] n h e = elim h [ ]
  max_risk-some (f ∷ fs) (a ∷ rest) n h e = cc e

  -- Under a policy that its validator accepts, every patch that passes the check is
  -- auto-executable.
  pub check-auto_executable :
      (escapes : NonEmpty → Bool) (digest : Digest) (lines : Option (List String))
      (budget : Option ChangeBudget)
      → check_policy escapes policy ≡ ok tt
      → (check host manifest policy kernel digest lines budget).disposition ≡ pass
      → (check host manifest policy kernel digest lines budget).auto_executable ≡ true
  unfolding check result
  check-auto_executable escapes digest lines budget h k =
      let (p, assets, a) = (check-pass_iff host manifest policy kernel digest lines budget).0 k in
      rw (IsAdmissible-judge host manifest policy kernel lines budget p assets a) (
        auto-of escapes policy (max_risk assets)
          (max_risk-some p.changed_files assets (parse_patch-IsSafe host.texts lines a.is_parsed).0
            a.is_registered)
          h ((is_held-IsHighest policy assets).1 a.is_executable))
