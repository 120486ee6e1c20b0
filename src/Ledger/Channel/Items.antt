-- ===== src/Ledger/Channel/Items.antt =====
-- When the calls of one task attempt have an exact cost: the loop over `retained` of
-- _direct_channel_cost.
use agent_loop_gate.Base.{
  ℕ, Bool, true, false, not, ◌&&◌, ◌||◌, ◌<◌, none, some, List, [], ◌∷◌, Option, same, same_iff,
  ltb, ◌==◌, is_some, count, all, filter, Occurs, Occurs-filter, filter-Occurs, and_true, ◌≡◌, ◌≢◌,
  ◌↔◌, ◌⊎◌, refl, sym, ap, inl, inr, arith, Bool-cases,
}
use mathlib.Core.Path.{subst}
use agent_loop_gate.Runtime.Usage.{
  ModelCallUsageEvent, started, exact, attempt_state_eq, cost_status_eq,
}
use agent_loop_gate.Ledger.Calls.{is_started, is_terminal}
use agent_loop_gate.Ledger.Channel.{
  TaskIdentity, task_identity_eq, Selected, is_exact_item, terminals_of, count_of,
}

-- The selected calls of an identity: one was started, unless the attempt was invalidated by the
-- infrastructure, as many are closed as were started, and each terminal event has an exact cost
-- and a number of provider retries.
pub record IsExactly (s : Selected) (item : TaskIdentity) (is_infra : Bool) : Type 0 where
  pub is_active : (0 < count (λ x. same item x.0 && is_started x.1) s) ⊎ (is_infra ≡ true)
  pub is_complete :
      count (λ x. same item x.0 && is_started x.1) s
      ≡ count (λ x. same item x.0 && is_terminal x.1) s
  pub has_costs :
      (e : ModelCallUsageEvent)
      → Occurs (item, e) s
      → e.fields.state ≢ started
      → e.fields.cost_status ≡ exact
  pub has_retries :
      (e : ModelCallUsageEvent)
      → Occurs (item, e) s
      → e.fields.state ≢ started
      → (n : ℕ) × (e.fields.provider_retry_count ≡ some n)

all-Occurs :
    {A : Type 0} (p : A → Bool) (xs : List A) (x : A) → all p xs ≡ true → Occurs x xs → p x ≡ true
all-Occurs p [] x h o = elim o [ ]
all-Occurs p (y ∷ xs) x h (inl e) = rw e (and_true _ _ h).0
all-Occurs p (y ∷ xs) x h (inr o) = all-Occurs p xs x (and_true _ _ h).1 o

Occurs-all :
    {A : Type 0} (p : A → Bool) (xs : List A)
    → ((x : A) → Occurs x xs → p x ≡ true)
    → all p xs ≡ true
Occurs-all p [] f = refl
Occurs-all p (y ∷ xs) f = ground (arith, f y (inl refl), Occurs-all p xs (λ x o. f x (inr o)))

pub filter_holds :
    {A : Type 0} (p : A → Bool) (xs : List A) (x : A) → Occurs x (filter p xs) → p x ≡ true
filter_holds p [] x o = elim o [ ]
filter_holds p (y ∷ xs) x o = elim (Bool-cases (p y)) [
  | inl h ↦ elim (rw h at o) [ inl e ↦ rw e h | inr more ↦ filter_holds p xs x more ]
  | inr h ↦ filter_holds p xs x (rw h at o)
]

some_value : (o : Option ℕ) → is_some o ≡ true → (n : ℕ) × (o ≡ some n)
some_value none h = cc h
some_value (some n) h = (n, refl)

terminal_of : (e : ModelCallUsageEvent) → e.fields.state ≢ started → is_terminal e ≡ true
terminal_of e h = elim (Bool-cases (is_started e)) [
  | inl p ↦ absurd (h ((same_iff e.fields.state started).0 p))
  | inr p ↦ rw p refl
]

not_started : (e : ModelCallUsageEvent) → is_terminal e ≡ true → e.fields.state ≢ started
not_started e h = λ p. cc (h, ap not ((same_iff e.fields.state started).1 p))

abbrev is_closed_of : TaskIdentity → TaskIdentity × ModelCallUsageEvent → Bool
is_closed_of item x = same item x.0 && is_terminal x.1

-- A terminal event of the identity is among those that the loop tests.
tested :
    (s : Selected) (item : TaskIdentity) (e : ModelCallUsageEvent)
    → Occurs (item, e) s
    → e.fields.state ≢ started
    → Occurs (item, e) (terminals_of item s)
tested s item e o h =
    filter-Occurs (is_closed_of item) (item, e) s o
      (rw ((same_iff item item).1 refl, terminal_of e h) refl)

untested :
    (s : Selected) (item : TaskIdentity) (x : TaskIdentity × ModelCallUsageEvent)
    → Occurs x (terminals_of item s)
    → Occurs (item, x.1) s × (x.1.fields.state ≢ started)
untested s item x o =
    let (own, closed) = and_true _ _ (filter_holds (is_closed_of item) s x o) in
    (
      subst (λ (j : TaskIdentity). Occurs (j, x.1) s) (sym ((same_iff item x.0).0 own))
          (Occurs-filter (is_closed_of item) x s o),
      not_started x.1 closed,
    )

is_active_of : (n : ℕ) (b : Bool) → (ltb 0 n || b) ≡ true → (0 < n) ⊎ (b ≡ true)
is_active_of n true h = inr refl
is_active_of n false h = inl (ground (arith, h))

active_test : (n : ℕ) (b : Bool) → (0 < n) ⊎ (b ≡ true) → (ltb 0 n || b) ≡ true
active_test n b (inl h) = ground (arith, h)
active_test n b (inr h) = ground (arith, h)

equal_of : (n m : ℕ) → (n == m) ≡ true → n ≡ m
equal_of n m h = ground (arith, h)

equal_test : (n m : ℕ) → n ≡ m → (n == m) ≡ true
equal_test n m h = ground (arith, h)

pub is_exact_item-IsExactly :
    (s : Selected) (item : TaskIdentity) (is_infra : Bool)
    → (is_exact_item s item is_infra ≡ true) ↔ IsExactly s item is_infra
is_exact_item-IsExactly s item is_infra = (
  λ h.
      let (h1, retries) = and_true _ _ h in
      let (h2, costs) = and_true _ _ h1 in
      let (active, complete) = and_true _ _ h2 in
      record {
        is_active = is_active_of (count_of is_started item s) is_infra active;
        is_complete = equal_of (count_of is_started item s) (count_of is_terminal item s) complete;
        has_costs = λ e o n. (same_iff e.fields.cost_status exact).0 (
            all-Occurs (λ x. same x.1.fields.cost_status exact) (terminals_of item s) (item, e)
              costs (tested s item e o n));
        has_retries = λ e o n. some_value e.fields.provider_retry_count (
            all-Occurs (λ x. is_some x.1.fields.provider_retry_count) (terminals_of item s)
              (item, e) retries (tested s item e o n));
      },
  λ h.
      rw
        (
          active_test (count_of is_started item s) is_infra h.is_active,
          equal_test (count_of is_started item s) (count_of is_terminal item s) h.is_complete,
          Occurs-all (λ x. same x.1.fields.cost_status exact) (terminals_of item s)
              (λ x o.
                let (own, ended) = untested s item x o in
                (same_iff x.1.fields.cost_status exact).1 (h.has_costs x.1 own ended)),
          Occurs-all (λ x. is_some x.1.fields.provider_retry_count) (terminals_of item s)
              (λ x o.
                let (own, ended) = untested s item x o in
                rw ((h.has_retries x.1 own ended).1) refl),
        )
        refl,
)
