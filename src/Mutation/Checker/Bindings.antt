-- ===== src/Mutation/Checker/Bindings.antt =====
-- The capability binding of a patch, and the files of the trust kernel.
use mathlib.Core.Path.{subst}
use agent_loop_gate.Base.Sorting.{sorted, str_lt}
use mathlib.Core.Option.{some-injective}
use agent_loop_gate.Base.{
  Occurs, all, lookup, same_iff, is_some, str_eq, string_eq, ◌⊎◌, ap, if◌then◌else◌, and_true,
  String, Bool, true, false, ◌||◌, Option, none, some, List, [], ◌∷◌, any, All, ◌≡◌, ◌↔◌, refl, sym,
  ap, ◌∙◌, arith, Bool-cases, inl, inr,
}
use agent_loop_gate.Schemas.{risk_tier_eq, Digest, NonEmpty}
use agent_loop_gate.Mutation.Models.{
  asset_operation_eq, HarnessAsset, HarnessAssetManifest, MutationPolicy, TrustKernelSnapshot,
}
use agent_loop_gate.Mutation.Patch.{ParsedPatch, join_lines, lines_of}
use text.Mathlib.Text.{find?}
use agent_loop_gate.Mutation.Checker.Verdicts.{
  removes_binding, static_target, Staging, check_failed, apply_failed, applied, CheckerHost,
  CapabilityError,
}
use agent_loop_gate.Mutation.Checker.Check.{
  same_file, guarded_files, check_binding, or_else, guarded_error, staged_error, check_guarded,
  trust_kernel_matches, runtime_capability_error,
}
use agent_loop_gate.Mutation.Checker.Requirements.{any-none, All-any}

-- A changed file whose asset routes capabilities.
abbrev pub IsGuarded : String → List String → List HarnessAsset → Type 0
IsGuarded file (f ∷ fs) (a ∷ rest) =
    ((file ≡ f) × (a.routes_capabilities ≡ true)) ⊎ IsGuarded file fs rest
IsGuarded file _ _ = ⊥

all-All : {A : Type 0} (p : A → Bool) (xs : List A) → all p xs ≡ true → All (λ x. p x ≡ true) xs
all-All p [] h = tt
all-All p (x ∷ xs) h = ((and_true _ _ h).0, all-All p xs (and_true _ _ h).1)

All-all : {A : Type 0} (p : A → Bool) (xs : List A) → All (λ x. p x ≡ true) xs → all p xs ≡ true
All-all p [] h = refl
All-all p (x ∷ xs) h = ground (arith, h.0, All-all p xs h.1)

abbrev binding_of : Staging → (String → Option Bool)
binding_of (applied binding) = binding
binding_of _ = λ file. none

module _ (host : CheckerHost) (manifest : HarnessAssetManifest) (policy : MutationPolicy)
    (kernel : TrustKernelSnapshot) where
  -- Every file of the trust kernel has its digest, and all together have that of the kernel.
  abbrev pub IsIntactKernel : Type 0
  IsIntactKernel =
      All (λ (f : NonEmpty × Digest). host.file_digest f.0 ≡ some f.1) kernel.files
      × (host.files_digest (sorted (λ (f g : NonEmpty × Digest). str_lt f.0 g.0) kernel.files)
          ≡ kernel.trust_kernel_digest)

  -- The staged file declares the required binding, the patch removes none of it, and adds no
  -- static target.
  abbrev pub IsBoundFile : ParsedPatch → (String → Option Bool) → String → Type 0
  IsBoundFile p binding file =
      (binding file ≡ some true)
      × (is_some
            (find? (join_lines (lines_of (lookup file p.deleted_by_file))) "capability_binding")
          ≡ false)
      × (is_some
            (find? (join_lines (lines_of (lookup file p.deleted_by_file))) "runtime_tool_schema")
          ≡ false)
      × All (λ line. host.is_static_target line ≡ false) (lines_of (lookup file p.added_by_file))

  -- The patch applies in the staging directory, and each guarded file is bound there.
  abbrev pub IsBound : ParsedPatch → List HarnessAsset → Type 0
  IsBound p assets =
      (file : String)
      → IsGuarded file p.changed_files assets
      → (binding : String → Option Bool) × (host.stage p.changed_files ≡ applied binding)
        × IsBoundFile p binding file

  same_file-some :
      (o : Option Digest) (d : Digest)
      → (same_file host manifest policy kernel o d ≡ true) ↔ (o ≡ some d)
  same_file-some none d = (λ h. cc h, λ h. cc h)
  same_file-some (some e) d =
      (λ h. ap (λ x. some x) ((same_iff e d).0 h), λ h. (same_iff e d).1 (some-injective _ _ h))

  files_match :
      (files : List (NonEmpty × Digest))
      → (All (λ f. same_file host manifest policy kernel (host.file_digest f.0) f.1 ≡ true) files)
        ↔ All (λ f. host.file_digest f.0 ≡ some f.1) files
  files_match [] = (λ h. tt, λ h. tt)
  files_match (f ∷ fs) = (
    λ h. ((same_file-some (host.file_digest f.0) f.1).0 h.0, (files_match fs).0 h.1),
    λ h. ((same_file-some (host.file_digest f.0) f.1).1 h.0, (files_match fs).1 h.1),
  )

  abbrev kernel_digest : Digest
  kernel_digest =
      host.files_digest (sorted (λ (f g : NonEmpty × Digest). str_lt f.0 g.0) kernel.files)

  pub trust_kernel_matches-IsIntactKernel :
      (trust_kernel_matches host manifest policy kernel ≡ true) ↔ IsIntactKernel
  unfolding trust_kernel_matches
  trust_kernel_matches-IsIntactKernel =
      let test = λ (f : NonEmpty × Digest).
        same_file host manifest policy kernel (host.file_digest f.0) f.1 in
      (
        λ h.
            let (files, whole) =
              and_true (all test kernel.files) (str_eq kernel_digest kernel.trust_kernel_digest)
                h in
            (
              (files_match kernel.files).0 (all-All test kernel.files files),
              (same_iff kernel_digest kernel.trust_kernel_digest).0 whole,
            ),
        λ h.
            rw
              (
                All-all test kernel.files ((files_match kernel.files).1 h.0),
                (same_iff kernel_digest kernel.trust_kernel_digest).1 h.1,
              )
              refl,
      )

  guarded_files-IsGuarded :
      (file : String) (files : List String) (assets : List HarnessAsset)
      → Occurs file (guarded_files host manifest policy kernel files assets)
        ↔ IsGuarded file files assets
  guarded_files-IsGuarded file [] assets = (λ o. o, λ o. o)
  guarded_files-IsGuarded file (f ∷ fs) [] = (λ o. o, λ o. o)
  guarded_files-IsGuarded file (f ∷ fs) (a ∷ rest) =
      let ih = guarded_files-IsGuarded file fs rest in
      elim (Bool-cases a.routes_capabilities) [
        | inl p ↦ (
          λ o. elim (rw p at o) [ inl e ↦ inl (e, p) | inr more ↦ inr (ih.0 more) ],
          λ o. rw p (elim o [ inl e ↦ inl e.0 | inr more ↦ inr (ih.1 more) ]),
        )
        | inr p ↦ (
          λ o. inr (ih.0 (rw p at o)),
          λ o. rw p (elim o [ inl e ↦ cc (e.1, p) | inr more ↦ ih.1 more ]),
        )
      ]

  check_binding-IsBoundFile :
      (p : ParsedPatch) (binding : String → Option Bool) (file : String) (o : Option Bool)
      → binding file ≡ o
      → (check_binding host manifest policy kernel p file o ≡ none) ↔ IsBoundFile p binding file
  check_binding-IsBoundFile p binding file none e = (λ h. cc h, λ h. cc (e, h.0))
  check_binding-IsBoundFile p binding file (some false) e = (λ h. cc h, λ h. cc (e, h.0))
  check_binding-IsBoundFile p binding file (some true) e =
      let deleted = join_lines (lines_of (lookup file p.deleted_by_file)) in
      let one = is_some (find? deleted "capability_binding") in
      let two = is_some (find? deleted "runtime_tool_schema") in
      let three = any host.is_static_target (lines_of (lookup file p.added_by_file)) in
      (
        λ h.
            let (f, g, k) = no_error one two three h in
            (e, f, g, any-none host.is_static_target (lines_of (lookup file p.added_by_file)) k),
        λ (_, f, g, k).
            rw (f, g, All-any host.is_static_target (lines_of (lookup file p.added_by_file)) k)
              refl,
      )
    where
      no_error :
          (a b c : Bool)
          → (if a || b then some removes_binding else if c then some static_target else none) ≡ none
          → (a ≡ false) × (b ≡ false) × (c ≡ false)
      no_error true b c h = cc h
      no_error false true c h = cc h
      no_error false false true h = cc h
      no_error false false false h = (refl, refl, refl)

  or_else-none :
      (e f : Option CapabilityError)
      → (or_else host manifest policy kernel e f ≡ none) ↔ ((e ≡ none) × (f ≡ none))
  or_else-none none f = (λ h. (refl, h), λ h. h.1)
  or_else-none (some e) f = (λ h. cc h, λ h. cc (h.0))

  check_guarded-IsBoundFile :
      (p : ParsedPatch) (binding : String → Option Bool) (files : List String)
      → (check_guarded host manifest policy kernel p binding files ≡ none)
        ↔ ((file : String) → Occurs file files → IsBoundFile p binding file)
  unfolding check_guarded
  check_guarded-IsBoundFile p binding [] = (λ h file o. elim o [ ], λ f. refl)
  check_guarded-IsBoundFile p binding (g ∷ gs) =
      let ih = check_guarded-IsBoundFile p binding gs in
      let here = check_binding-IsBoundFile p binding g (binding g) refl in
      let both =
        or_else-none (check_binding host manifest policy kernel p g (binding g))
          (check_guarded host manifest policy kernel p binding gs) in
      (
        λ h file o. elim o [
          | inl e ↦ subst (IsBoundFile p binding) (sym e) (here.0 (both.0 h).0)
          | inr more ↦ ih.0 (both.0 h).1 file more
        ],
        λ f. both.1 (here.1 (f g (inl refl)), ih.1 (λ file o. f file (inr o))),
      )

  staged_error-applied :
      (p : ParsedPatch) (files : List String) (st : Staging)
      → staged_error host manifest policy kernel p files st ≡ none
      → (binding : String → Option Bool) × (st ≡ applied binding)
        × (check_guarded host manifest policy kernel p binding files ≡ none)
  unfolding staged_error
  staged_error-applied p files check_failed h = cc h
  staged_error-applied p files apply_failed h = cc h
  staged_error-applied p files (applied binding) h = (binding, refl, h)

  guarded_error-IsBound :
      (p : ParsedPatch) (files : List String)
      → (guarded_error host manifest policy kernel p files ≡ none) ↔ (
          (file : String)
          → Occurs file files
          → (binding : String → Option Bool) × (host.stage p.changed_files ≡ applied binding)
            × IsBoundFile p binding file)
  unfolding staged_error
  guarded_error-IsBound p [] = (λ h file o. elim o [ ], λ f. refl)
  guarded_error-IsBound p (g ∷ gs) = (
    λ h file o.
        let (binding, e, free) = staged_error-applied p (g ∷ gs) (host.stage p.changed_files) h in
        (binding, e, (check_guarded-IsBoundFile p binding (g ∷ gs)).0 free file o),
    λ f.
        let (binding, e, first) = f g (inl refl) in
        rw e (
          (check_guarded-IsBoundFile p binding (g ∷ gs)).1 (λ file o.
            let (other, d, good) = f file o in
            subst (λ (b : String → Option Bool). IsBoundFile p b file) (ap binding_of (sym d ∙ e))
              good)),
  )

  pub runtime_capability_error-IsBound :
      (p : ParsedPatch) (assets : List HarnessAsset)
      → (runtime_capability_error host manifest policy kernel p assets ≡ none) ↔ IsBound p assets
  unfolding runtime_capability_error
  runtime_capability_error-IsBound p assets =
      let guarded = guarded_files host manifest policy kernel p.changed_files assets in
      let all_bound = guarded_error-IsBound p guarded in
      (
        λ h file o. all_bound.0 h file ((guarded_files-IsGuarded file p.changed_files assets).1 o),
        λ f.
            all_bound.1
              (λ file o. f file ((guarded_files-IsGuarded file p.changed_files assets).0 o)),
      )
