-- ===== src/Mutation/Checker/Requirements.antt =====
-- What it takes that a patch passes the checker of agentloopgate/mutation/service.py.
use mathlib.Core.Path.{subst}
use agent_loop_gate.Base.{
  Occurs, All-Occurs, Occurs-contains, contains-Occurs, contains, same_iff, string_eq, ◌⊎◌,
  and_true, ℕ, ◌≤◌, Bool, true, false, not, Option, none, some, List, [], ◌∷◌, any, filter, ltb,
  All, ◌≡◌, ◌↔◌, refl, sym, ◌∙◌, arith, Bool-cases, inl, inr,
}
use agent_loop_gate.Schemas.{RiskTier, risk_l, risk_m, risk_h, risk_tier_eq}
use agent_loop_gate.Schemas.Candidate.{ChangeBudget}
use agent_loop_gate.Mutation.Models.{
  AssetOperation, asset_operation_eq, HarnessAsset, MutationPolicy,
}
use agent_loop_gate.Mutation.Checker.Verdicts.{
  risk_order, higher, max_from, permits, budget_of, is_held, max_risk,
}

pub filter-none :
    {A : Type 0} (p : A → Bool) (xs : List A) → filter p xs ≡ [] → All (λ x. p x ≡ false) xs
filter-none p [] h = tt
filter-none p (x ∷ xs) h = elim (Bool-cases (p x)) [
  | inl e ↦ cc (rw e at h)
  | inr e ↦ (e, filter-none p xs (rw e at h))
]

pub any-none :
    {A : Type 0} (p : A → Bool) (xs : List A) → any p xs ≡ false → All (λ x. p x ≡ false) xs
any-none p [] h = tt
any-none p (x ∷ xs) h = (ground arith, any-none p xs (ground arith))

pub not-All :
    {A : Type 0} (p : A → Bool) (xs : List A)
    → All (λ x. not (p x) ≡ false) xs
    → All (λ x. p x ≡ true) xs
not-All p [] h = tt
not-All p (x ∷ xs) h = (ground (arith, h.0), not-All p xs h.1)

pub filter-All :
    {A : Type 0} (p : A → Bool) (xs : List A) → All (λ x. p x ≡ false) xs → filter p xs ≡ []
filter-All p [] h = refl
filter-All p (x ∷ xs) h = rw (h.0) (filter-All p xs h.1)

pub All-any :
    {A : Type 0} (p : A → Bool) (xs : List A) → All (λ x. p x ≡ false) xs → any p xs ≡ false
All-any p [] h = refl
All-any p (x ∷ xs) h = rw (h.0) (All-any p xs h.1)

pub All-not :
    {A : Type 0} (p : A → Bool) (xs : List A)
    → All (λ x. p x ≡ true) xs
    → All (λ x. not (p x) ≡ false) xs
All-not p [] h = tt
All-not p (x ∷ xs) h = (rw (h.0), All-not p xs h.1)

pub le_ltb : (a b : ℕ) → a ≤ b → ltb b a ≡ false
le_ltb a b h = ground arith

-- An asset permits a patch, or the proposal of a change to an asset of Risk-H.
abbrev pub IsPermitted : HarnessAsset → Type 0
IsPermitted a =
    Occurs AssetOperation.patch a.allowed_operations
    ⊎ ((a.risk_tier ≡ risk_h) × Occurs AssetOperation.propose a.allowed_operations)

-- The tier of one of the assets, before which that of no other one is.
abbrev pub IsHighest : RiskTier → List HarnessAsset → Type 0
IsHighest r assets =
    ((a : HarnessAsset) × Occurs a assets × (a.risk_tier ≡ r))
    × All (λ (a : HarnessAsset). risk_order a.risk_tier ≤ risk_order r) assets

permits-IsPermitted : (a : HarnessAsset) → permits a ≡ true → IsPermitted a
permits-IsPermitted a h = elim (Bool-cases (contains AssetOperation.patch a.allowed_operations)) [
  | inl p ↦ inl (Occurs-contains AssetOperation.patch a.allowed_operations p)
  | inr p ↦
      let (tier, proposes) = and_true _ _ (rw p at h) in
      inr (
        (same_iff a.risk_tier risk_h).0 tier,
        Occurs-contains AssetOperation.propose a.allowed_operations proposes,
      )
]

IsPermitted-permits : (a : HarnessAsset) → IsPermitted a → permits a ≡ true
IsPermitted-permits a (inl o) =
    rw (contains-Occurs AssetOperation.patch a.allowed_operations o) refl
IsPermitted-permits a (inr h) = ground (
  arith,
  (same_iff a.risk_tier risk_h).1 h.0,
  contains-Occurs AssetOperation.propose a.allowed_operations h.1,
)

pub All-IsPermitted :
    (assets : List HarnessAsset)
    → All (λ (a : HarnessAsset). permits a ≡ true) assets
    → All IsPermitted assets
All-IsPermitted [] h = tt
All-IsPermitted (a ∷ rest) h = (permits-IsPermitted a h.0, All-IsPermitted rest h.1)

pub All-permits :
    (assets : List HarnessAsset)
    → All IsPermitted assets
    → All (λ (a : HarnessAsset). permits a ≡ true) assets
All-permits [] h = tt
All-permits (a ∷ rest) h = (IsPermitted-permits a h.0, All-permits rest h.1)

risk_order-injective :
    (r s : RiskTier) → risk_order r ≤ risk_order s → risk_order s ≤ risk_order r → r ≡ s
risk_order-injective risk_l risk_l h k = refl
risk_order-injective risk_m risk_m h k = refl
risk_order-injective risk_h risk_h h k = refl
risk_order-injective _ _ h k = ground (arith, h, k)

-- The higher of two tiers is one of them and bounds both.
higher_bounds :
    (r s : RiskTier)
    → (risk_order r ≤ risk_order (higher r s))
      × (risk_order s ≤ risk_order (higher r s))
      × ((higher r s ≡ r) ⊎ (higher r s ≡ s))
higher_bounds r s = elim (Bool-cases (ltb (risk_order r) (risk_order s))) [
  | inl p ↦ (rw p (ground (arith, p)), rw p (ground arith), inr (rw p refl))
  | inr p ↦ (rw p (ground arith), rw p (ground (arith, p)), inl (rw p refl))
]

max_from-IsHighest :
    (r : RiskTier) (assets : List HarnessAsset)
    → (risk_order r ≤ risk_order (max_from r assets))
      × All (λ (a : HarnessAsset). risk_order a.risk_tier ≤ risk_order (max_from r assets)) assets
      × ((max_from r assets ≡ r)
          ⊎ ((a : HarnessAsset) × Occurs a assets × (a.risk_tier ≡ max_from r assets)))
max_from-IsHighest r [] = (ground arith, tt, inl refl)
max_from-IsHighest r (a ∷ rest) =
    let (first, second, one) = higher_bounds r a.risk_tier in
    let (low, every, some_asset) = max_from-IsHighest (higher r a.risk_tier) rest in
    (
      ground (arith, first, low),
      (ground (arith, second, low), every),
      elim some_asset [
        | inl e ↦ elim one [ inl f ↦ inl (e ∙ f) | inr f ↦ inr (a, inl refl, sym (e ∙ f)) ]
        | inr w ↦ inr (w.0, inr w.1, w.2)
      ],
    )

max_risk-IsHighest :
    (a : HarnessAsset) (rest : List HarnessAsset) → IsHighest (max_from a.risk_tier rest) (a ∷ rest)
max_risk-IsHighest a rest =
    let (low, every, one) = max_from-IsHighest a.risk_tier rest in
    (elim one [ inl e ↦ (a, inl refl, sym e) | inr w ↦ (w.0, inr w.1, w.2) ], (low, every))

highest_unique :
    (r s : RiskTier) (assets : List HarnessAsset) → IsHighest r assets → IsHighest s assets → r ≡ s
highest_unique r s assets ((a, o, e), h) ((b, p, f), k) =
    let below =
      All-Occurs (λ (x : HarnessAsset). risk_order x.risk_tier ≤ risk_order s) a assets k o in
    let above =
      All-Occurs (λ (x : HarnessAsset). risk_order x.risk_tier ≤ risk_order r) b assets h p in
    risk_order-injective r s (rw e at below) (rw f at above)

absent_tier : (r : RiskTier) (tiers : List RiskTier) → contains r tiers ≡ false → ¬ Occurs r tiers
absent_tier r tiers h o = cc (h, contains-Occurs r tiers o)

no_tier : (r : RiskTier) (tiers : List RiskTier) → ¬ Occurs r tiers → contains r tiers ≡ false
no_tier r tiers h = elim (Bool-cases (contains r tiers)) [
  | inl p ↦ absurd (h (Occurs-contains r tiers p))
  | inr p ↦ p
]

pub is_held-IsHighest :
    (policy : MutationPolicy) (assets : List HarnessAsset)
    → (is_held policy (max_risk assets) ≡ false)
      ↔ ((r : RiskTier) → IsHighest r assets → ¬ Occurs r policy.hold_risks)
is_held-IsHighest policy [] = (λ h r k. elim (k.0.1) [ ], λ f. refl)
is_held-IsHighest policy (a ∷ rest) = (
  λ h r k.
      subst (λ (x : RiskTier). ¬ Occurs x policy.hold_risks)
        (highest_unique (max_from a.risk_tier rest) r (a ∷ rest) (max_risk-IsHighest a rest) k)
        (absent_tier (max_from a.risk_tier rest) policy.hold_risks h),
  λ f.
      no_tier (max_from a.risk_tier rest) policy.hold_risks
        (f (max_from a.risk_tier rest) (max_risk-IsHighest a rest)),
)

-- The numbers of a patch are within the policy, and within the budget of the run if it has one.
abbrev pub FitsBudget : Option ChangeBudget → ℕ → ℕ → Type 0
FitsBudget none files lines = Unit
FitsBudget (some b) files lines = (files ≤ b.max_files) × (lines ≤ b.max_changed_lines)

pub budget_of-FitsBudget :
    (policy : MutationPolicy) (budget : Option ChangeBudget) (files lines : ℕ)
    → ((files ≤ (budget_of policy budget).max_files)
        × (lines ≤ (budget_of policy budget).max_changed_lines))
      ↔ ((files ≤ policy.max_files)
          × (lines ≤ policy.max_changed_lines)
          × FitsBudget budget files lines)
budget_of-FitsBudget policy none files lines = (λ h. (h.0, h.1, tt), λ h. (h.0, h.1))
budget_of-FitsBudget policy (some b) files lines = (
  λ h. (ground (arith, h.0), ground (arith, h.1), (ground (arith, h.0), ground (arith, h.1))),
  λ h. (ground (arith, h.0, h.2.0), ground (arith, h.1, h.2.1)),
)
