-- ===== src/Ledger/Channel/Exactness.antt =====
-- What the exact costs of a channel are, and when the channel is exact.
use agent_loop_gate.Base.{
  Bool, true, false, not, some, List, [], ◌∷◌, ok, same, lookup, keys, any, some_of, same_iff, All,
  Occurs, contains-Occurs, ◌≡◌, refl, sym, ◌∙◌, inl, inr, ◌⊎◌, >>=-eq-ok, raise_if-eq-ok,
  ok-injective, Bool-cases, ap,
}
use agent_loop_gate.Base.Decimals.{Decimal, whole, sum_from}
use agent_loop_gate.Schemas.{Digest}
use agent_loop_gate.Runtime.Usage.{ModelCallUsageEvent, DigestPayload, usage_1_2, usage_version_eq}
use agent_loop_gate.Ledger.Calls.{Line, model_call_events}
use agent_loop_gate.Ledger.Channel.{
  TaskIdentity, task_identity_eq, TokenPrices, Selected, KnownCosts, DirectChannelCost, value_at,
  known_costs, known_at, zero_costs, exact_costs, is_exact_item, keep_exact, select,
  valid_identities, infra_identities, channel_answer, direct_channel_cost, terminals_in,
}
use agent_loop_gate.Ledger.Channel.Items.{IsExactly, is_exact_item-IsExactly}
use agent_loop_gate.Ledger.Channel.Sums.{
  IsPriced, value_at-some, known_costs-IsPriced, known_costs-sum, known_costs_of, lookup-zero_costs,
}

-- A retained identity whose calls are all closed at an exact cost.
abbrev pub IsExactItem :
    List (TaskIdentity × Bool) → Selected → KnownCosts → TaskIdentity → Decimal → Type 0
IsExactItem retained s known item cost =
    (infra : Bool) × Occurs (item, infra) retained
    × IsExactly s item infra
    × (lookup item known ≡ some cost)

keep_exact-lookup :
    (b : Bool) (j : TaskIdentity) (known others exacts : KnownCosts) (item : TaskIdentity)
    (cost : Decimal)
    → keep_exact b j known others ≡ ok exacts
    → lookup item exacts ≡ some cost
    → (lookup item others ≡ some cost) ⊎ ((b ≡ true) × (item ≡ j) × (lookup j known ≡ some cost))
keep_exact-lookup false j known others exacts item cost h p = inl (rw (ok-injective h) p)
keep_exact-lookup true j known others exacts item cost h p =
    let (c, held, rest) = >>=-eq-ok (value_at (lookup j known)) _ h in
    let q : lookup item ((j, c) ∷ others) ≡ some cost = rw (sym (ok-injective rest)) at p in
    elim (Bool-cases (same item j)) [
      | inl e ↦ inr (
        refl,
        (same_iff item j).0 e,
        rw (sym (some_of (rw e at q))) (value_at-some (lookup j known) c held),
      )
      | inr e ↦ inl (rw e at q)
    ]

pub exact_costs-IsExactItem :
    (s : Selected) (known exacts : KnownCosts) (retained : List (TaskIdentity × Bool))
    (item : TaskIdentity) (cost : Decimal)
    → exact_costs s known retained ≡ ok exacts
    → lookup item exacts ≡ some cost
    → IsExactItem retained s known item cost
unfolding exact_costs
exact_costs-IsExactItem s known exacts [] item cost h p = absurd (cc (ok-injective h, p))
exact_costs-IsExactItem s known exacts ((j, infra) ∷ rest) item cost h p =
    let (others, rests, kept) = >>=-eq-ok (exact_costs s known rest) _ h in
    elim (keep_exact-lookup (is_exact_item s j infra) j known others exacts item cost kept p) [
      | inl old ↦
          let (flag, o, is_exact, held) =
            exact_costs-IsExactItem s known others rest item cost rests old in
          (flag, inr o, is_exact, held)
      | inr new ↦ (
        infra,
        inl (rw new.1 refl),
        rw new.1 ((is_exact_item-IsExactly s j infra).0 new.0),
        rw new.1 new.2,
      )
    ]

Occurs-keys :
    (item : TaskIdentity) (infra : Bool) (retained : List (TaskIdentity × Bool))
    → Occurs (item, infra) retained
    → Occurs item (keys retained)
Occurs-keys item infra [] o = o
Occurs-keys item infra ((j, flag) ∷ rest) (inl e) = inl (ap (λ x. x.0) e)
Occurs-keys item infra ((j, flag) ∷ rest) (inr o) = inr (Occurs-keys item infra rest o)

module _ (canonical_digest : DigestPayload → Digest)
    (set_order : List TaskIdentity → List TaskIdentity) where
  -- What the parts of a call of _direct_channel_cost that returned were.
  abbrev pub IsComputed :
      List Line → List (TaskIdentity × Bool) → TokenPrices → DirectChannelCost → Type 0
  IsComputed lines retained prices c =
      (events : List ModelCallUsageEvent) × (s : Selected) × (known : KnownCosts)
      × (exacts : KnownCosts) × (model_call_events canonical_digest (some lines) ≡ ok events)
      × (select (keys retained) events ≡ ok s)
      × (known_costs prices (zero_costs retained) (terminals_in s) ≡ ok known)
      × (exact_costs s known retained ≡ ok exacts)
      × (channel_answer set_order retained known exacts ≡ ok c)

  pub direct_channel_cost-IsComputed :
      (lines : List Line) (retained : List (TaskIdentity × Bool)) (prices : TokenPrices)
      (c : DirectChannelCost)
      → direct_channel_cost canonical_digest set_order (some lines) retained prices ≡ ok c
      → IsComputed lines retained prices c
  unfolding direct_channel_cost
  direct_channel_cost-IsComputed lines retained prices c h =
      let (events, read, h1) = >>=-eq-ok (model_call_events canonical_digest (some lines)) _ h in
      let (version, h2) =
        raise_if-eq-ok (any (λ e. not (same e.fields.schema_version usage_1_2)) events) _ _ h1 in
      let (s, selects, h3) = >>=-eq-ok (select (keys retained) events) _ h2 in
      let (known, sums, h4) =
        >>=-eq-ok (known_costs prices (zero_costs retained) (terminals_in s)) _ h3 in
      let (exacts, finds, h5) = >>=-eq-ok (exact_costs s known retained) _ h4 in
      (events, s, known, exacts, read, selects, sums, finds, h5)

  channel_answer-costs :
      (retained : List (TaskIdentity × Bool)) (known exacts : KnownCosts) (c : DirectChannelCost)
      → channel_answer set_order retained known exacts ≡ ok c
      → c.exact_by_identity ≡ exacts
  unfolding channel_answer
  channel_answer-costs retained known exacts c h =
      let (valid_costs, v, h1) =
        >>=-eq-ok (known_at known (set_order (valid_identities retained))) _ h in
      let (infra_costs, i, h2) =
        >>=-eq-ok (known_at known (set_order (infra_identities retained))) _ h1 in
      ap (λ (x : DirectChannelCost). x.exact_by_identity) (sym (ok-injective h2))

  -- An identity in `exact_by_identity` is retained, and its calls are exact: one was started, unless
  -- the attempt was invalidated, as many are closed as were started, and each terminal event has an
  -- exact cost and a retry count. Exact costs are those of the tokens at the frozen prices, and
  -- the identity's cost is the sum of the costs of its terminal events.
  pub direct_channel_cost-sum :
      (lines : List Line) (retained : List (TaskIdentity × Bool)) (prices : TokenPrices)
      (c : DirectChannelCost) (item : TaskIdentity) (cost : Decimal)
      → direct_channel_cost canonical_digest set_order (some lines) retained prices ≡ ok c
      → lookup item c.exact_by_identity ≡ some cost
      → (events : List ModelCallUsageEvent) × (s : Selected) × (infra : Bool) × (model_call_events
            canonical_digest
            (some lines)
          ≡ ok events)
        × (select (keys retained) events ≡ ok s)
        × Occurs (item, infra) retained
        × IsExactly s item infra
        × All (λ x. IsPriced prices x.1) (terminals_in s)
        × (cost ≡ sum_from (whole 0) (known_costs_of item (terminals_in s)))
  direct_channel_cost-sum lines retained prices c item cost h p =
      let (events, s, known, exacts, read, selects, sums, finds, answer) =
        direct_channel_cost-IsComputed lines retained prices c h in
      let (infra, o, is_exact, held) =
        exact_costs-IsExactItem s known exacts retained item cost finds
          (rw (channel_answer-costs retained known exacts c answer) at p) in
      let total =
        known_costs-sum prices (zero_costs retained) known (terminals_in s) item (whole 0) sums (
          lookup-zero_costs retained item
            (contains-Occurs item (keys retained) (Occurs-keys item infra retained o))) in
      (
        events,
        s,
        infra,
        read,
        selects,
        o,
        is_exact,
        known_costs-IsPriced prices (zero_costs retained) known (terminals_in s) sums,
        some_of (sym held ∙ total),
      )
