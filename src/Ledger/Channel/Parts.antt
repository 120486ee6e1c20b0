-- ===== src/Ledger/Channel/Parts.antt =====
-- When the valid, the infra and the retained cost of a channel are exact.
use agent_loop_gate.Base.{
  Bool, true, false, not, ◌&&◌, List, [], ◌∷◌, ok, contains, lookup, keys, is_unique, is_subset,
  Occurs, Occurs-contains, contains-Occurs, is_subset-Occurs, Occurs-is_subset, Occurs-filter,
  filter-Occurs, lookup-keys, ◌≡◌, ◌↔◌, refl, sym, ap, ◌∙◌, inl, inr, arith, >>=-eq-ok,
  ok-injective, Bool-cases, and_true, filter, ◌⊎◌, some,
}
use mathlib.Core.Path.{subst}
use agent_loop_gate.Schemas.{Digest}
use agent_loop_gate.Runtime.Usage.{ModelCallUsageEvent, DigestPayload}
use agent_loop_gate.Ledger.Calls.{Line, model_call_events}
use agent_loop_gate.Ledger.Channel.{
  TaskIdentity, task_identity_eq, TokenPrices, Selected, KnownCosts, DirectChannelCost, value_at,
  exact_costs, is_exact_item, keep_exact, select, valid_identities, infra_identities,
  channel_answer, direct_channel_cost, known_at,
}
use agent_loop_gate.Ledger.Channel.Items.{IsExactly, is_exact_item-IsExactly, filter_holds}
use agent_loop_gate.Ledger.Channel.Exactness.{
  exact_costs-IsExactItem, direct_channel_cost-IsComputed,
}

abbrev Retained : Type 0
Retained = List (TaskIdentity × Bool)

Occurs-keys :
    (item : TaskIdentity) (infra : Bool) (retained : Retained)
    → Occurs (item, infra) retained
    → Occurs item (keys retained)
Occurs-keys item infra [] o = o
Occurs-keys item infra ((j, flag) ∷ rest) (inl e) = inl (ap (λ x. x.0) e)
Occurs-keys item infra ((j, flag) ∷ rest) (inr o) = inr (Occurs-keys item infra rest o)

keys-Occurs :
    (item : TaskIdentity) (retained : Retained)
    → Occurs item (keys retained)
    → (infra : Bool) × Occurs (item, infra) retained
keys-Occurs item [] o = elim o [ ]
keys-Occurs item ((j, flag) ∷ rest) (inl e) = (flag, inl (ap (λ x. (x, flag)) e))
keys-Occurs item ((j, flag) ∷ rest) (inr o) =
    let (infra, there) = keys-Occurs item rest o in (infra, inr there)

not_absent :
    (j : TaskIdentity) (rest : Retained)
    → (not (contains j (keys rest)) && is_unique (keys rest)) ≡ true
    → ¬ (contains j (keys rest) ≡ true)
not_absent j rest u there = ground (arith, u, there)

-- A dictionary has one value under a key.
same_value :
    (item : TaskIdentity) (a b : Bool) (retained : Retained)
    → is_unique (keys retained) ≡ true
    → Occurs (item, a) retained
    → Occurs (item, b) retained
    → a ≡ b
same_value item a b [] u o p = elim o [ ]
same_value item a b ((j, flag) ∷ rest) u (inl e) (inl f) = ap (λ x. x.1) e ∙ sym (ap (λ x. x.1) f)
same_value item a b ((j, flag) ∷ rest) u (inl e) (inr p) =
    let there = contains-Occurs item (keys rest) (Occurs-keys item b rest p) in
    absurd (not_absent j rest u (ap (λ x. contains x (keys rest)) (sym (ap (λ x. x.0) e)) ∙ there))
same_value item a b ((j, flag) ∷ rest) u (inr o) (inl f) =
    let there = contains-Occurs item (keys rest) (Occurs-keys item a rest o) in
    absurd (not_absent j rest u (ap (λ x. contains x (keys rest)) (sym (ap (λ x. x.0) f)) ∙ there))
same_value item a b ((j, flag) ∷ rest) u (inr o) (inr p) =
    same_value item a b rest (and_true _ _ u).1 o p

filter-key :
    (p : TaskIdentity × Bool → Bool) (item : TaskIdentity) (retained : Retained)
    → Occurs item (keys (filter p retained))
    → (infra : Bool) × Occurs (item, infra) retained × (p (item, infra) ≡ true)
filter-key p item retained o =
    let (infra, there) = keys-Occurs item (filter p retained) o in
    (
      infra,
      Occurs-filter p (item, infra) retained there,
      filter_holds p retained (item, infra) there,
    )

is_false : (b : Bool) → not b ≡ true → b ≡ false
is_false b h = ground (arith, h)

valid_identities-Occurs :
    (item : TaskIdentity) (retained : Retained)
    → Occurs item (valid_identities retained) ↔ Occurs (item, false) retained
valid_identities-Occurs item retained = (
  λ o.
      let (infra, there, held) = filter-key (λ x. not x.1) item retained o in
      subst (λ (b : Bool). Occurs (item, b) retained) (is_false infra held) there,
  λ o.
      Occurs-keys item false (filter (λ x. not x.1) retained)
        (filter-Occurs (λ x. not x.1) (item, false) retained o refl),
)

abbrev is_new : Retained → TaskIdentity → Bool
is_new retained x = not (contains x (valid_identities retained))

infra_identities-Occurs :
    (item : TaskIdentity) (retained : Retained)
    → is_unique (keys retained) ≡ true
    → Occurs item (infra_identities retained) ↔ Occurs (item, true) retained
infra_identities-Occurs item retained u = (
  λ o.
      let (infra, there) =
        keys-Occurs item retained (Occurs-filter (is_new retained) item (keys retained) o) in
      infra_flag infra there (filter_holds (is_new retained) (keys retained) item o),
  λ o.
      filter-Occurs (is_new retained) item (keys retained) (Occurs-keys item true retained o)
        (fresh o),
)
  where
    infra_flag :
        (infra : Bool)
        → Occurs (item, infra) retained
        → is_new retained item ≡ true
        → Occurs (item, true) retained
    infra_flag true o h = o
    infra_flag false o h = absurd (
        cc (
          h,
          ap not (
              contains-Occurs item (valid_identities retained)
                ((valid_identities-Occurs item retained).1 o)),
        ))

    fresh : Occurs (item, true) retained → is_new retained item ≡ true
    fresh o = elim (Bool-cases (contains item (valid_identities retained))) [
      | inl p ↦
          let valid =
            (valid_identities-Occurs item retained).0
              (Occurs-contains item (valid_identities retained) p) in
          absurd (cc (same_value item true false retained u o valid))
      | inr p ↦ rw p refl
    ]

keep_exact-keys :
    (b : Bool) (j : TaskIdentity) (known others exacts : KnownCosts) (x : TaskIdentity)
    → keep_exact b j known others ≡ ok exacts
    → Occurs x (keys others) ⊎ ((x ≡ j) × (b ≡ true))
    → Occurs x (keys exacts)
keep_exact-keys false j known others exacts x h o =
    subst (λ (k : KnownCosts). Occurs x (keys k)) (ok-injective h)
      (elim o [ inl old ↦ old | inr new ↦ cc (new.1) ])
keep_exact-keys true j known others exacts x h o =
    let (c, held, rest) = >>=-eq-ok (value_at (lookup j known)) _ h in
    subst (λ (k : KnownCosts). Occurs x (keys k)) (ok-injective rest)
      (elim o [ inl old ↦ inr old | inr new ↦ inl new.0 ])

exact_costs-has :
    (s : Selected) (known exacts : KnownCosts) (retained : Retained) (x : TaskIdentity)
    (infra : Bool)
    → exact_costs s known retained ≡ ok exacts
    → Occurs (x, infra) retained
    → is_exact_item s x infra ≡ true
    → Occurs x (keys exacts)
unfolding exact_costs
exact_costs-has s known exacts [] x infra h o e = elim o [ ]
exact_costs-has s known exacts ((j, flag) ∷ rest) x infra h o e =
    let (others, rests, kept) = >>=-eq-ok (exact_costs s known rest) _ h in
    keep_exact-keys (is_exact_item s j flag) j known others exacts x kept (elim o [
      | inl here ↦ inr (
        ap (λ y. y.0) here,
        ap (λ (y : TaskIdentity × Bool). is_exact_item s y.0 y.1) (sym here) ∙ e,
      )
      | inr there ↦ inl (exact_costs-has s known others rest x infra rests there e)
    ])

-- An identity of the dictionary has an exact cost just if its calls are exact.
exact_costs-keys :
    (s : Selected) (known exacts : KnownCosts) (retained : Retained) (x : TaskIdentity)
    (infra : Bool)
    → is_unique (keys retained) ≡ true
    → exact_costs s known retained ≡ ok exacts
    → Occurs (x, infra) retained
    → Occurs x (keys exacts) ↔ IsExactly s x infra
exact_costs-keys s known exacts retained x infra u h o = (
  λ there.
      let (cost, found) = lookup-keys x exacts (contains-Occurs x (keys exacts) there) in
      let (flag, place, is_exact, held) =
        exact_costs-IsExactItem s known exacts retained x cost h found in
      subst (λ (b : Bool). IsExactly s x b) (same_value x flag infra retained u place o) is_exact,
  λ is_exact.
      exact_costs-has s known exacts retained x infra h o
        ((is_exact_item-IsExactly s x infra).1 is_exact),
)

subset_iff :
    (xs ys : List TaskIdentity)
    → (is_subset xs ys ≡ true) ↔ ((x : TaskIdentity) → Occurs x xs → Occurs x ys)
subset_iff xs ys = (
  λ h x o. Occurs-is_subset x xs ys h o,
  λ f. is_subset-Occurs xs ys (λ x o. contains-Occurs x ys (f x o)),
)

-- Which costs of a channel are exact.
pub record HasExactness (s : Selected) (retained : List (TaskIdentity × Bool))
    (c : DirectChannelCost) : Type 0 where
  -- The cost of the valid attempts is exact just if the calls of each valid attempt are.
  pub valid_iff :
      (c.valid_exact ≡ true)
      ↔ ((x : TaskIdentity) → Occurs (x, false) retained → IsExactly s x false)
  -- The same of the attempts that the infrastructure invalidated.
  pub infra_iff :
      (c.infra_exact ≡ true) ↔ ((x : TaskIdentity) → Occurs (x, true) retained → IsExactly s x true)
  -- The retained cost is exact just if the calls of all attempts are.
  pub retained_iff :
      (c.retained_exact ≡ true)
      ↔ ((x : TaskIdentity) (infra : Bool) → Occurs (x, infra) retained → IsExactly s x infra)

module _ (canonical_digest : DigestPayload → Digest)
    (set_order : List TaskIdentity → List TaskIdentity) where
  channel_answer-HasExactness :
      (s : Selected) (retained : List (TaskIdentity × Bool)) (known exacts : KnownCosts)
      (c : DirectChannelCost)
      → is_unique (keys retained) ≡ true
      → exact_costs s known retained ≡ ok exacts
      → channel_answer set_order retained known exacts ≡ ok c
      → HasExactness s retained c
  unfolding channel_answer
  channel_answer-HasExactness s retained known exacts c u finds h =
      let (valid_costs, v, h1) =
        >>=-eq-ok (known_at known (set_order (valid_identities retained))) _ h in
      let (infra_costs, i, h2) =
        >>=-eq-ok (known_at known (set_order (infra_identities retained))) _ h1 in
      let item = exact_costs-keys s known exacts retained in
      let valid = subset_iff (valid_identities retained) (keys exacts) in
      let infras = subset_iff (infra_identities retained) (keys exacts) in
      let every = subset_iff (keys retained) (keys exacts) in
      subst (λ (x : DirectChannelCost). HasExactness s retained x) (ok-injective h2)
        (record {
          valid_iff = (
            λ e x o.
                (item x false u finds o).0 (valid.0 e x ((valid_identities-Occurs x retained).1 o)),
            λ f. valid.1 (λ x o.
                let place = (valid_identities-Occurs x retained).0 o in
                (item x false u finds place).1 (f x place)),
          );
          infra_iff = (
            λ e x o.
                (item x true u finds o).0
                  (infras.0 e x ((infra_identities-Occurs x retained u).1 o)),
            λ f. infras.1 (λ x o.
                let place = (infra_identities-Occurs x retained u).0 o in
                (item x true u finds place).1 (f x place)),
          );
          retained_iff = (
            λ e x infra o.
                (item x infra u finds o).0 (every.0 e x (Occurs-keys x infra retained o)),
            λ f. every.1 (λ x o.
                let (infra, place) = keys-Occurs x retained o in
                (item x infra u finds place).1 (f x infra place)),
          );
        })

  -- Where _direct_channel_cost returns on a ledger file, for a dictionary of retained attempts, the
  -- valid cost is exact just if the calls of every valid attempt are exact, the infra cost just if
  -- those of every invalidated attempt are, and the retained cost just if those of all are. The
  -- calls of an attempt are exact when one was started, unless the attempt is invalidated, as many
  -- are closed as were started, and each terminal event has an exact cost and a retry count.
  pub direct_channel_cost-exact_iff :
      (lines : List Line) (retained : List (TaskIdentity × Bool)) (prices : TokenPrices)
      (c : DirectChannelCost)
      → is_unique (keys retained) ≡ true
      → direct_channel_cost canonical_digest set_order (some lines) retained prices ≡ ok c
      → (events : List ModelCallUsageEvent) × (s : Selected) × (model_call_events canonical_digest
            (some lines)
          ≡ ok events)
        × (select (keys retained) events ≡ ok s)
        × HasExactness s retained c
  direct_channel_cost-exact_iff lines retained prices c u h =
      let (events, s, known, exacts, read, selects, sums, finds, answer) =
        direct_channel_cost-IsComputed canonical_digest set_order lines retained prices c h in
      (
        events,
        s,
        read,
        selects,
        channel_answer-HasExactness s retained known exacts c u finds answer,
      )
