-- ===== src/Mutation/Checker/Admission.antt =====
-- What a patch that passes the checker of agentloopgate/mutation/service.py has.
use mathlib.Core.Path.{subst}
use agent_loop_gate.Base.{
  Occurs, ◌+◌, ◌≤◌, String, false, not, ◌||◌, Option, List, [], ◌∷◌, ok, err, ok-injective, any,
  filter, length, ltb, All, ◌≡◌, ◌↔◌, refl, arith, >>=-eq-ok,
}
use agent_loop_gate.Schemas.{RiskTier, risk_tier_eq, Digest, NonEmpty}
use agent_loop_gate.Schemas.Candidate.{ChangeBudget}
use agent_loop_gate.Mutation.Models.{
  HarnessAsset, HarnessAssetManifest, MutationPolicy, TrustKernelSnapshot, pass, reject,
  reject_operation, reject_leakage, reject_change_budget, reject_trust_kernel_drift,
}
use agent_loop_gate.Mutation.Patch.{ParsedPatch, parse_patch}
use agent_loop_gate.Mutation.Checker.Verdicts.{
  CheckerHost, Verdict, rejection, returned, drifted, no_patch_operation, forbidden_feature,
  over_budget, permits, budget_of, by_risk, is_held, max_risk, none_protected, none_unbound,
  parsed_or, one_asset,
}
use agent_loop_gate.Mutation.Checker.Check.{
  trust_kernel_matches, is_protected, assets_at, match_assets, runtime_capability_error, judge,
  check, result,
}
use agent_loop_gate.Mutation.Checker.Returns.{
  passes-raise_if, passes->>=, rejects->>=, parsed_or-rejects, parsed_or-eq-ok,
  none_protected-rejects, none_protected-eq-ok, none_unbound-rejects, none_unbound-eq-ok,
  one_asset-rejects, one_asset-eq-ok, by_risk-pass,
}
use agent_loop_gate.Mutation.Checker.Requirements.{
  IsPermitted, All-IsPermitted, All-permits, IsHighest, is_held-IsHighest, FitsBudget,
  budget_of-FitsBudget, filter-none, any-none, not-All, filter-All, All-any, All-not, le_ltb,
}
use agent_loop_gate.Mutation.Checker.Bindings.{
  IsIntactKernel, trust_kernel_matches-IsIntactKernel, IsBound, runtime_capability_error-IsBound,
}

module _ (host : CheckerHost) (manifest : HarnessAssetManifest) (policy : MutationPolicy)
    (kernel : TrustKernelSnapshot) where
  -- Each changed file matches a path pattern of exactly one registered asset, the one listed.
  abbrev pub IsRegistered : List String → List HarnessAsset → Type 0
  IsRegistered [] [] = Unit
  IsRegistered (file ∷ files) (a ∷ rest) =
      (filter (λ (x : HarnessAsset). any (host.path_matches file) x.path_patterns) manifest.assets
        ≡ a ∷ [])
      × IsRegistered files rest
  IsRegistered _ _ = ⊥

  -- No protected path matches the file.
  abbrev pub IsUnprotected : String → Type 0
  IsUnprotected file =
      All (λ (pattern : NonEmpty). host.path_matches file pattern ≡ false) policy.protected_paths

  -- The conditions on a patch that the checker lets pass.
  pub record IsAdmissible (lines : Option (List String)) (budget : Option ChangeBudget)
      (p : ParsedPatch) (assets : List HarnessAsset) : Type 0 where
    pub is_parsed : parse_patch host.texts lines ≡ ok p
    pub is_intact : IsIntactKernel host manifest policy kernel
    pub is_unprotected : All IsUnprotected p.changed_files
    pub is_registered : IsRegistered p.changed_files assets
    pub is_permitted : All IsPermitted assets
    pub is_unleaked :
        All (λ pattern. host.finds pattern p.added_text ≡ false) policy.forbidden_content_patterns
    pub is_bound : IsBound host manifest policy kernel p assets
    pub has_files : length p.changed_files ≤ policy.max_files
    pub has_lines : p.additions + p.deletions ≤ policy.max_changed_lines
    pub fits_budget : FitsBudget budget (length p.changed_files) (p.additions + p.deletions)
    pub is_executable : (r : RiskTier) → IsHighest r assets → ¬ Occurs r policy.hold_risks

  All-IsUnprotected :
      (files : List String)
      → All (λ file. is_protected host manifest policy kernel file ≡ false) files
      → All IsUnprotected files
  All-IsUnprotected [] h = tt
  All-IsUnprotected (file ∷ files) h =
      (any-none (host.path_matches file) policy.protected_paths h.0, All-IsUnprotected files h.1)

  none_is_protected :
      (files : List String)
      → All IsUnprotected files
      → All (λ file. is_protected host manifest policy kernel file ≡ false) files
  none_is_protected [] h = tt
  none_is_protected (file ∷ files) h =
      (All-any (host.path_matches file) policy.protected_paths h.0, none_is_protected files h.1)

  match_assets-rejects :
      (p : ParsedPatch) (files : List String) (v : Verdict)
      → match_assets host manifest policy kernel p files ≡ err v
      → v.disposition ≡ reject
  unfolding match_assets
  match_assets-rejects p [] v h = cc
  match_assets-rejects p (f ∷ fs) v h =
      rejects->>= (one_asset f p (assets_at host manifest policy kernel f)) _ v
        (one_asset-rejects f p (assets_at host manifest policy kernel f))
        (λ a w k.
          rejects->>= (match_assets host manifest policy kernel p fs) _ w
            (match_assets-rejects p fs) (λ rest x l. cc l) k)
        h

  match_assets-IsRegistered :
      (p : ParsedPatch) (files : List String) {assets : List HarnessAsset}
      → match_assets host manifest policy kernel p files ≡ ok assets
      → IsRegistered files assets
  unfolding match_assets
  match_assets-IsRegistered p [] h = subst (IsRegistered []) (ok-injective h) tt
  match_assets-IsRegistered p (f ∷ fs) h =
      let (a, e, h1) = >>=-eq-ok (one_asset f p (assets_at host manifest policy kernel f)) _ h in
      let (rest, k, h2) = >>=-eq-ok (match_assets host manifest policy kernel p fs) _ h1 in
      subst (IsRegistered (f ∷ fs)) (ok-injective h2) (
        one_asset-eq-ok f p (assets_at host manifest policy kernel f) e,
        match_assets-IsRegistered p fs k,
      )

  judge-IsAdmissible :
      (lines : Option (List String)) (budget : Option ChangeBudget)
      → (returned (judge host manifest policy kernel lines budget)).disposition ≡ pass
      → (p : ParsedPatch) × (assets : List HarnessAsset) × IsAdmissible lines budget p assets
  unfolding judge
  judge-IsAdmissible lines budget h =
      let (p, e1, h1) =
        passes->>= (parsed_or (parse_patch host.texts lines)) _ (parsed_or-rejects _) h in
      let (e2, h2) =
        passes-raise_if (not (trust_kernel_matches host manifest policy kernel))
          (rejection reject_trust_kernel_drift drifted p []) _ refl h1 in
      let files = filter (is_protected host manifest policy kernel) p.changed_files in
      let (u, e3, h3) = passes->>= (none_protected p files) _ (none_protected-rejects p files) h2 in
      let (assets, e4, h4) =
        passes->>= (match_assets host manifest policy kernel p p.changed_files) _
          (match_assets-rejects p p.changed_files) h3 in
      let (e5, h5) =
        passes-raise_if (any (λ a. not (permits a)) assets)
          (rejection reject_operation no_patch_operation p assets) _ refl h4 in
      let (e6, h6) =
        passes-raise_if (any (λ x. host.finds x p.added_text) policy.forbidden_content_patterns)
          (rejection reject_leakage forbidden_feature p assets) _ refl h5 in
      let unbound = runtime_capability_error host manifest policy kernel p assets in
      let (w, e7, h7) =
        passes->>= (none_unbound p assets unbound) _ (none_unbound-rejects p assets unbound) h6 in
      let limits = budget_of policy budget in
      let (e8, h8) =
        passes-raise_if
          (ltb limits.max_files (length p.changed_files)
            || ltb limits.max_changed_lines (p.additions + p.deletions))
          (rejection reject_change_budget (over_budget limits.max_files limits.max_changed_lines) p
            assets)
          (ok (by_risk policy p assets (is_held policy (max_risk assets)))) refl h7 in
      let fits =
        (budget_of-FitsBudget policy budget (length p.changed_files) (p.additions + p.deletions)).0
          (ground (arith, e8), ground (arith, e8)) in
      (
        p,
        assets,
        record {
          is_parsed = parsed_or-eq-ok (parse_patch host.texts lines) e1;
          is_intact =
              (trust_kernel_matches-IsIntactKernel host manifest policy kernel).0 (ground arith);
          is_unprotected = All-IsUnprotected p.changed_files (
              filter-none (is_protected host manifest policy kernel) p.changed_files
                (none_protected-eq-ok p files e3));
          is_registered = match_assets-IsRegistered p p.changed_files e4;
          is_permitted =
              All-IsPermitted assets
                (not-All permits assets (any-none (λ a. not (permits a)) assets e5));
          is_unleaked =
              any-none (λ x. host.finds x p.added_text) policy.forbidden_content_patterns e6;
          is_bound =
              (runtime_capability_error-IsBound host manifest policy kernel p assets).0
                (none_unbound-eq-ok p assets unbound e7);
          has_files = fits.0;
          has_lines = fits.1;
          fits_budget = fits.2;
          is_executable =
              (is_held-IsHighest policy assets).0
                (by_risk-pass policy p assets (is_held policy (max_risk assets)) h8);
        },
      )

  match_assets_complete :
      (p : ParsedPatch) (files : List String) (assets : List HarnessAsset)
      → IsRegistered files assets
      → match_assets host manifest policy kernel p files ≡ ok assets
  unfolding match_assets
  match_assets_complete p [] [] h = refl
  match_assets_complete p [] (a ∷ rest) h = elim h [ ]
  match_assets_complete p (f ∷ fs) [] h = elim h [ ]
  match_assets_complete p (f ∷ fs) (a ∷ rest) h = rw (h.0, match_assets_complete p fs rest h.1)

  pub IsAdmissible-judge :
      (lines : Option (List String)) (budget : Option ChangeBudget) (p : ParsedPatch)
      (assets : List HarnessAsset)
      → IsAdmissible lines budget p assets
      → judge host manifest policy kernel lines budget ≡ ok (by_risk policy p assets false)
  unfolding judge
  IsAdmissible-judge lines budget p assets h =
      let fits =
        (budget_of-FitsBudget policy budget (length p.changed_files) (p.additions + p.deletions)).1
          (h.has_files, h.has_lines, h.fits_budget) in
      rw (
        h.is_parsed,
        (trust_kernel_matches-IsIntactKernel host manifest policy kernel).1 h.is_intact,
        filter-All (is_protected host manifest policy kernel) p.changed_files
            (none_is_protected p.changed_files h.is_unprotected),
        match_assets_complete p p.changed_files assets h.is_registered,
        All-any (λ a. not (permits a)) assets
            (All-not permits assets (All-permits assets h.is_permitted)),
        All-any (λ x. host.finds x p.added_text) policy.forbidden_content_patterns h.is_unleaked,
        (runtime_capability_error-IsBound host manifest policy kernel p assets).1 h.is_bound,
        le_ltb _ _ fits.0,
        le_ltb _ _ fits.1,
        (is_held-IsHighest policy assets).1 h.is_executable,
      )

  -- A patch passes the check exactly when it parses; every file of the trust kernel has its digest
  -- and all together that of the kernel; no changed file matches a protected path; each matches
  -- exactly one registered asset, which permits a patch, or a proposal under Risk-H; no forbidden
  -- pattern is found in what it adds; each file whose asset routes capabilities is bound in the
  -- staging directory; the numbers of files and of lines are within the policy and within the
  -- budget given, if any; and the highest tier of the assets is not one that the policy holds.
  pub check-pass_iff :
      (digest : Digest) (lines : Option (List String)) (budget : Option ChangeBudget)
      → ((check host manifest policy kernel digest lines budget).disposition ≡ pass)
        ↔ ((p : ParsedPatch) × (assets : List HarnessAsset) × IsAdmissible lines budget p assets)
  unfolding check result
  check-pass_iff digest lines budget = (
    judge-IsAdmissible lines budget,
    λ (p, assets, h). rw (IsAdmissible-judge lines budget p assets h),
  )
