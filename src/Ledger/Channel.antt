-- ===== src/Ledger/Channel.antt =====
-- The direct cost of one channel of model calls, _direct_channel_cost of
-- agentloopgate/experiment/ledger.py. The order in which Python runs through a set is the parameter
-- `set_order`.
use agent_loop_gate.Base.{
  ℕ, String, Bool, true, false, not, ◌&&◌, ◌||◌, Option, none, some, List, [], ◌∷◌, Result, ok, err,
  raise_if, ◌>>◌, ◌>>=◌, same, contains, lookup, insert, keys, filter, count, any, all, map, ltb,
  is_some, is_subset, is_none, string_eq, nat_eq, if◌then◌else◌, ◌==◌, product_eq, Eq,
}
use agent_loop_gate.Base.Int.{ℤ, int_eq}
use agent_loop_gate.Base.Decimals.{Decimal, whole, add, mul, div, sum_from, eq}
use agent_loop_gate.Schemas.{Digest, NonEmpty}
use agent_loop_gate.Runtime.Usage.{
  ModelCallUsageEvent, DigestPayload, exact, partial, usage_1_2, cost_status_eq, usage_version_eq,
}
use agent_loop_gate.Ledger.Calls.{LedgerFile, is_started, is_terminal, model_call_events}
pub mod Sums
pub mod Items
pub mod Exactness
pub mod Parts

-- `_TaskIdentity`: task, trial, seed and attempt index.
abbrev pub TaskIdentity : Type 0
TaskIdentity = NonEmpty × (ℕ × (ℤ × ℕ))

instance abbrev pub task_identity_eq : Eq TaskIdentity
task_identity_eq = product_eq string_eq (product_eq nat_eq (product_eq int_eq nat_eq))

-- `frozen_token_prices`: for a million input, cached and output tokens.
pub record TokenPrices : Type 0 where
  pub input : Decimal
  pub cache_read : Decimal
  pub output : Decimal

-- `_DirectChannelCost`
pub record DirectChannelCost : Type 0 where
  pub valid_known : Decimal
  pub valid_exact : Bool
  pub infra_known : Decimal
  pub infra_exact : Bool
  pub retained_known : Decimal
  pub retained_exact : Bool
  pub exact_by_identity : List (TaskIdentity × Decimal)

abbrev pub no_channel : DirectChannelCost
no_channel = record {
  valid_known = whole 0;
  valid_exact = false;
  infra_known = whole 0;
  infra_exact = false;
  retained_known = whole 0;
  retained_exact = false;
  exact_by_identity = [];
}

-- `d[k]`
abbrev pub value_at : {V : Type 0} → Option V → Result String V
value_at none = err "KeyError"
value_at (some v) = ok v

-- The inner function `identity` with its assertions.
abbrev identity_of : Option NonEmpty → Option ℕ → Option ℤ → Option ℕ → Result String TaskIdentity
identity_of (some task) (some trial) (some seed) (some index) = ok (task, (trial, (seed, index)))
identity_of _ _ _ _ = err "AssertionError"

unfoldable pub identity : ModelCallUsageEvent → Result String TaskIdentity
identity e = identity_of e.fields.task_id e.fields.trial e.fields.seed e.fields.task_attempt_index

abbrev pub Selected : Type 0
Selected = List (TaskIdentity × ModelCallUsageEvent)

-- `selected`, each event with its identity.
unfoldable pub select : List TaskIdentity → List ModelCallUsageEvent → Result String Selected
unfolding identity
select retained [] = ok []
select retained (e ∷ es) = do
  item ← identity e
  rest ← select retained es
  ok (if contains item retained then (item, e) ∷ rest else rest)

-- `Counter(identity(event) for event in selected if p(event))[item]`
abbrev pub count_of : (ModelCallUsageEvent → Bool) → TaskIdentity → Selected → ℕ
count_of p item s = count (λ x. same item x.0 && p x.1) s

unfoldable pub token_price : TokenPrices → ℕ → ℕ → ℕ → Decimal
unfolding mul add div
token_price prices i c o =
    div
      (add (add (mul (whole i) prices.input) (mul (whole c) prices.cache_read))
        (mul (whole o) prices.output))
      (whole 1000000)

abbrev differs : Option Decimal → Decimal → Bool
differs none expected = true
differs (some cost) expected = not (eq cost expected)

unfoldable pub check_tokens :
    TokenPrices → Option Decimal → Option ℕ → Option ℕ → Option ℕ → Result String (Unit {0})
unfolding token_price
check_tokens prices cost (some i) (some c) (some o) = do
  raise_if (differs cost (token_price prices i c o)) "exact cost does not match frozen token prices"
  ok tt
check_tokens prices cost _ _ _ = err "exact cost requires complete token counters"

unfoldable pub check_price : TokenPrices → ModelCallUsageEvent → Result String (Unit {0})
unfolding check_tokens
check_price prices e =
    if same e.fields.cost_status exact
    then check_tokens prices e.fields.cost_usd e.fields.input_tokens e.fields.cache_read_tokens
        e.fields.output_tokens
    else ok tt

-- The cost that a terminal event adds.
abbrev pub known_cost : ModelCallUsageEvent → Option Decimal
known_cost e =
    if same e.fields.cost_status exact || same e.fields.cost_status partial
    then e.fields.cost_usd
    else none

abbrev pub KnownCosts : Type 0
KnownCosts = List (TaskIdentity × Decimal)

-- `known_by_identity[item] += cost`
unfoldable pub add_known : KnownCosts → TaskIdentity → Option Decimal → Result String KnownCosts
unfolding add
add_known known item none = ok known
add_known known item (some cost) = do
  old ← value_at (lookup item known)
  ok (insert item (add old cost) known)

unfoldable pub known_costs : TokenPrices → KnownCosts → Selected → Result String KnownCosts
unfolding check_price add_known
known_costs prices known [] = ok known
known_costs prices known ((item, e) ∷ rest) = do
  check_price prices e
  next ← add_known known item (known_cost e)
  known_costs prices next rest

abbrev pub terminals_of : TaskIdentity → Selected → Selected
terminals_of item s = filter (λ x. same item x.0 && is_terminal x.1) s

abbrev pub is_exact_item : Selected → TaskIdentity → Bool → Bool
is_exact_item s item is_infra =
    (ltb 0 (count_of is_started item s) || is_infra)
    && count_of is_started item s == count_of is_terminal item s
    && all (λ x. same x.1.fields.cost_status exact) (terminals_of item s)
    && all (λ x. is_some x.1.fields.provider_retry_count) (terminals_of item s)

abbrev keep_exact : Bool → TaskIdentity → KnownCosts → KnownCosts → Result String KnownCosts
keep_exact false item known others = ok others
keep_exact true item known others = do
  cost ← value_at (lookup item known)
  ok ((item, cost) ∷ others)

-- `exact_by_identity`, in the order of `retained`.
unfoldable pub exact_costs :
    Selected → KnownCosts → List (TaskIdentity × Bool) → Result String KnownCosts
exact_costs s known [] = ok []
exact_costs s known ((item, is_infra) ∷ rest) = do
  others ← exact_costs s known rest
  keep_exact (is_exact_item s item is_infra) item known others

abbrev pub valid_identities : List (TaskIdentity × Bool) → List TaskIdentity
valid_identities retained = keys (filter (λ x. not x.1) retained)

abbrev pub infra_identities : List (TaskIdentity × Bool) → List TaskIdentity
infra_identities retained =
    filter (λ item. not (contains item (valid_identities retained))) (keys retained)

-- `known_by_identity[item] for item in items`
unfoldable pub known_at : KnownCosts → List TaskIdentity → Result String (List Decimal)
known_at known [] = ok []
known_at known (item ∷ items) = do
  cost ← value_at (lookup item known)
  rest ← known_at known items
  ok (cost ∷ rest)

-- The sums and the answer, once the costs are known.
unfoldable pub channel_answer :
    (List TaskIdentity → List TaskIdentity)
    → List (TaskIdentity × Bool)
    → KnownCosts
    → KnownCosts
    → Result String DirectChannelCost
unfolding known_at sum_from
channel_answer set_order retained known exacts = do
  valid_costs ← known_at known (set_order (valid_identities retained))
  infra_costs ← known_at known (set_order (infra_identities retained))
  ok (record {
    valid_known = sum_from (whole 0) valid_costs;
    valid_exact = is_subset (valid_identities retained) (keys exacts);
    infra_known = sum_from (whole 0) infra_costs;
    infra_exact = is_subset (infra_identities retained) (keys exacts);
    retained_known = add (sum_from (whole 0) valid_costs) (sum_from (whole 0) infra_costs);
    retained_exact = is_subset (keys retained) (keys exacts);
    exact_by_identity = exacts;
  })

abbrev pub zero_costs : List (TaskIdentity × Bool) → KnownCosts
zero_costs [] = []
zero_costs ((item, is_infra) ∷ rest) = (item, whole 0) ∷ zero_costs rest

abbrev pub terminals_in : Selected → Selected
terminals_in s = filter (λ x. is_terminal x.1) s

module _ (canonical_digest : DigestPayload → Digest)
    (set_order : List TaskIdentity → List TaskIdentity) where
  unfoldable pub direct_channel_cost :
      LedgerFile → List (TaskIdentity × Bool) → TokenPrices → Result String DirectChannelCost
  unfolding model_call_events select known_costs exact_costs channel_answer
  direct_channel_cost none retained prices = ok no_channel
  direct_channel_cost (some lines) retained prices = do
    events ← model_call_events canonical_digest (some lines)
    raise_if (any (λ e. not (same e.fields.schema_version usage_1_2)) events)
        "direct cost accounting requires usage ledger 1.2"
    s ← select (keys retained) events
    known ← known_costs prices (zero_costs retained) (terminals_in s)
    exacts ← exact_costs s known retained
    channel_answer set_order retained known exacts
