-- ===== src/Ledger/Channel/Sums.antt =====
-- The dictionary of known costs is a sum for each identity.
use agent_loop_gate.Base.{
  ℕ, Bool, true, not, Option, none, some, List, [], ◌∷◌, ok, same, contains, lookup, insert, keys,
  lookup-insert, some_of, same_iff, All, if◌then◌else◌, ◌≡◌, refl, sym, ap, ◌∙◌, inl, inr, arith,
  >>=-eq-ok, raise_if-eq-ok, ok-injective, Bool-cases,
}
use mathlib.Core.Path.{subst}
use agent_loop_gate.Base.Decimals.{Decimal, whole, add, sum_from, eq}
use agent_loop_gate.Runtime.Usage.{ModelCallUsageEvent, exact, cost_status_eq}
use agent_loop_gate.Ledger.Channel.{
  TaskIdentity, task_identity_eq, TokenPrices, Selected, KnownCosts, value_at, known_cost,
  check_price, check_tokens, add_known, known_costs, zero_costs, token_price,
}

-- The terminal event costs what its token counters come to at the frozen prices, if its cost is
-- exact.
abbrev pub IsPriced : TokenPrices → ModelCallUsageEvent → Type 0
IsPriced prices e =
    e.fields.cost_status ≡ exact
    → (i : ℕ) × (c : ℕ) × (o : ℕ) × (cost : Decimal) × (e.fields.input_tokens ≡ some i)
      × (e.fields.cache_read_tokens ≡ some c)
      × (e.fields.output_tokens ≡ some o)
      × (e.fields.cost_usd ≡ some cost)
      × (eq cost (token_price prices i c o) ≡ true)

check_tokens-eq :
    (prices : TokenPrices) (cost : Option Decimal) (i c o : Option ℕ)
    → check_tokens prices cost i c o ≡ ok tt
    → (i' : ℕ) × (c' : ℕ) × (o' : ℕ) × (cost' : Decimal) × (i ≡ some i')
      × (c ≡ some c')
      × (o ≡ some o')
      × (cost ≡ some cost')
      × (eq cost' (token_price prices i' c' o') ≡ true)
unfolding check_tokens
check_tokens-eq prices none (some i) (some c) (some o) h = cc h
check_tokens-eq prices (some cost) (some i) (some c) (some o) h = (
  i,
  c,
  o,
  cost,
  refl,
  refl,
  refl,
  refl,
  ground (arith, raise_if-eq-ok (not (eq cost (token_price prices i c o))) _ _ h),
)
check_tokens-eq prices cost none c o h = cc h
check_tokens-eq prices cost (some i) none o h = cc h
check_tokens-eq prices cost (some i) (some c) none h = cc h

check_price-IsPriced :
    (prices : TokenPrices) (e : ModelCallUsageEvent)
    → check_price prices e ≡ ok tt
    → IsPriced prices e
unfolding check_price
check_price-IsPriced prices e h is_exact =
    check_tokens-eq prices _ _ _ _ (rw ((same_iff e.fields.cost_status exact).1 is_exact) at h)

pub known_costs-IsPriced :
    (prices : TokenPrices) (known final : KnownCosts) (s : Selected)
    → known_costs prices known s ≡ ok final
    → All (λ x. IsPriced prices x.1) s
unfolding known_costs
known_costs-IsPriced prices known final [] h = tt
known_costs-IsPriced prices known final ((item, e) ∷ s) h =
    let (a, priced, rest) = >>=-eq-ok (check_price prices e) _ h in
    let (next, added, more) = >>=-eq-ok (add_known known item (known_cost e)) _ rest in
    (check_price-IsPriced prices e priced, known_costs-IsPriced prices next final s more)

abbrev pub and_cost : Option Decimal → List Decimal → List Decimal
and_cost none costs = costs
and_cost (some c) costs = c ∷ costs

-- The known costs of an identity's events, in their order.
abbrev pub known_costs_of : TaskIdentity → Selected → List Decimal
known_costs_of item [] = []
known_costs_of item (x ∷ s) =
    if same item x.0
    then and_cost (known_cost x.1) (known_costs_of item s)
    else known_costs_of item s

pub value_at-some : {V : Type 0} (o : Option V) (v : V) → value_at o ≡ ok v → o ≡ some v
value_at-some none v h = cc h
value_at-some (some w) v h = ap (λ x. some x) (ok-injective h)

-- What an identity's cost becomes, with the costs still to come.
abbrev HasSum : KnownCosts → TaskIdentity → Decimal → List Decimal → List Decimal → Type 0
HasSum next item a costs rest =
    (b : Decimal) × (lookup item next ≡ some b) × (sum_from b rest ≡ sum_from a costs)

insert-HasSum :
    (known : KnownCosts) (item j : TaskIdentity) (old c a : Decimal) (costs : List Decimal)
    → lookup j known ≡ some old
    → lookup item known ≡ some a
    → HasSum (insert j (add old c) known) item a (if same item j then c ∷ costs else costs) costs
unfolding sum_from
insert-HasSum known item j old c a costs held p = elim (Bool-cases (same item j)) [
  | inl q ↦
      let one : old ≡ a = some_of (sym held ∙ rw (sym ((same_iff item j).0 q)) p) in
      (add old c, rw (lookup-insert j item (add old c) known, q) refl, rw (q, one) refl)
  | inr q ↦ (a, rw (lookup-insert j item (add old c) known, q) p, rw q refl)
]

add_known-lookup :
    (known next : KnownCosts) (item j : TaskIdentity) (cost : Option Decimal) (a : Decimal)
    (costs : List Decimal)
    → add_known known j cost ≡ ok next
    → lookup item known ≡ some a
    → HasSum next item a (if same item j then and_cost cost costs else costs) costs
unfolding add_known sum_from
add_known-lookup known next item j none a costs h p = (
  a,
  rw (sym (ok-injective h)) p,
  elim (Bool-cases (same item j)) [ inl q ↦ rw q refl | inr q ↦ rw q refl ],
)
add_known-lookup known next item j (some c) a costs h p =
    let (old, held, rest) = >>=-eq-ok (value_at (lookup j known)) _ h in
    let e : insert j (add old c) known ≡ next = ok-injective rest in
    subst (λ (n : KnownCosts). HasSum n item a (if same item j then c ∷ costs else costs) costs) e
      (insert-HasSum known item j old c a costs (value_at-some _ old held) p)

pub known_costs-sum :
    (prices : TokenPrices) (known final : KnownCosts) (s : Selected) (item : TaskIdentity)
    (a : Decimal)
    → known_costs prices known s ≡ ok final
    → lookup item known ≡ some a
    → lookup item final ≡ some (sum_from a (known_costs_of item s))
unfolding known_costs sum_from
known_costs-sum prices known final [] item a h p = rw (sym (ok-injective h)) p
known_costs-sum prices known final ((j, e) ∷ s) item a h p =
    let (checked, priced, rest) = >>=-eq-ok (check_price prices e) _ h in
    let (next, added, more) = >>=-eq-ok (add_known known j (known_cost e)) _ rest in
    let (b, q, sums) =
      add_known-lookup known next item j (known_cost e) a (known_costs_of item s) added p in
    rw (sym sums) (known_costs-sum prices next final s item b more q)

pub lookup-zero_costs :
    (retained : List (TaskIdentity × Bool)) (item : TaskIdentity)
    → contains item (keys retained) ≡ true
    → lookup item (zero_costs retained) ≡ some (whole 0)
lookup-zero_costs [] item h = cc h
lookup-zero_costs ((j, infra) ∷ rest) item h = elim (Bool-cases (same item j)) [
  | inl p ↦ rw p
  | inr p ↦ rw p (lookup-zero_costs rest item (rw p at h))
]
