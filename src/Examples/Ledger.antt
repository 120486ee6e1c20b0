-- ===== src/Examples/Ledger.antt =====
-- The ledgers of model calls and of task attempts at concrete inputs.
use Prim.Native.String.{◌++◌ as str_append}
use agent_loop_gate.Base.{
  ℕ, ◌+◌, Bool, false, none, some, List, [], ◌∷◌, All, Occurs, ok, value_of, keys, lookup, count,
  filter, ◌≡◌, refl,
}
use agent_loop_gate.Base.Int.{pos}
use agent_loop_gate.Base.Decimals.{whole, sum_from}
use agent_loop_gate.Schemas.{Digest}
use agent_loop_gate.Runtime.Usage.{
  usage_1_2, CallFields, ModelCallUsageEvent, DigestPayload, CallArguments, started, completed,
  pending, exact, make_model_call_event, verify_model_call_event, check_call,
}
use agent_loop_gate.Runtime.Usage.Digests.{verify-make_model_call_event}
use agent_loop_gate.Ledger.Calls.{
  Line, event, model_call_events, model_call_terminals, unresolved_model_calls, is_started,
  is_terminal,
}
use agent_loop_gate.Ledger.Calls.Balance.{unresolved_model_calls-balance}
use agent_loop_gate.Ledger.Calls.Terminals.{
  model_call_terminals-filter, model_call_events-IsStartOf, IsStartOf,
}
use agent_loop_gate.Ledger.Channel.{
  TaskIdentity, task_identity_eq, TokenPrices, DirectChannelCost, Selected, direct_channel_cost,
  select, terminals_in,
}
use agent_loop_gate.Ledger.Channel.Items.{IsExactly}
use agent_loop_gate.Ledger.Channel.Parts.{HasExactness, direct_channel_cost-exact_iff}
use agent_loop_gate.Ledger.Channel.Sums.{IsPriced, known_costs_of}
use agent_loop_gate.Ledger.Channel.Exactness.{direct_channel_cost-sum}

abbrev canonical_digest : DigestPayload → Digest
canonical_digest p = str_append "sha256:" p.fields.call_id

-- A call of attempt 1 on task t1, and its end at an exact cost.
abbrev first_fields : CallFields
first_fields = record {
  schema_version = usage_1_2;
  call_id = "call1";
  state = started;
  recorded_at = "t0";
  session_id_hash = "sha256:s1";
  model = "m";
  task_id = some "t1";
  trial = some 0;
  seed = some (pos 7);
  task_attempt_index = some 1;
  duration_ms = none;
  input_tokens = none;
  cache_read_tokens = none;
  output_tokens = none;
  provider_retry_count = some 0;
  cost_usd = none;
  cost_status = pending;
  exit_code = none;
  error_type = none;
  error_message = none;
}

abbrev last_fields : CallFields
last_fields = record first_fields {
  state = completed;
  input_tokens = some 500000;
  cache_read_tokens = some 0;
  output_tokens = some 250000;
  cost_usd = some (whole 1);
  cost_status = exact;
}

abbrev stored : CallFields → ModelCallUsageEvent
stored f = record { fields = f; event_id = "MCE_CALL1"; event_digest = "sha256:call1" }

abbrev arguments : CallArguments
arguments = record {
  fields = record first_fields {
    task_id = none;
    trial = none;
    seed = none;
    task_attempt_index = none;
  };
  schema_version = none;
  provider_retry_count = none;
}

unfoldable made : ModelCallUsageEvent
unfolding make_model_call_event
made = value_of (make_model_call_event canonical_digest arguments "t0") tt

makes : make_model_call_event canonical_digest arguments "t0" ≡ ok made
unfolding made make_model_call_event
makes = refl

verify-make_model_call_event_example :
    (check_call made.fields ≡ ok tt) × (verify_model_call_event canonical_digest made ≡ ok tt)
verify-make_model_call_event_example =
    verify-make_model_call_event canonical_digest arguments "t0" made makes

abbrev events : List ModelCallUsageEvent
events = stored first_fields ∷ stored last_fields ∷ []

abbrev lines : List Line
lines = event (stored first_fields) ∷ Line.blank ∷ event (stored last_fields) ∷ []

reads : model_call_events canonical_digest (some lines) ≡ ok events
unfolding model_call_events
reads = refl

unresolved_model_calls-balance_example :
    (n : ℕ) × (unresolved_model_calls canonical_digest (some lines) ≡ ok n)
    × (n + count is_terminal events ≡ count is_started events)
unresolved_model_calls-balance_example =
    unresolved_model_calls-balance canonical_digest (some lines) events reads

model_call_terminals-filter_example :
    model_call_terminals canonical_digest (some lines) ≡ ok (filter is_terminal events)
model_call_terminals-filter_example =
    model_call_terminals-filter canonical_digest (some lines) events reads

model_call_events-IsStartOf_example :
    (s : ModelCallUsageEvent) × Occurs s (stored first_fields ∷ [])
    × IsStartOf s (stored last_fields)
model_call_events-IsStartOf_example =
    model_call_events-IsStartOf canonical_digest (some lines) (stored first_fields ∷ []) []
      (stored last_fields) reads refl

abbrev prices : TokenPrices
prices = record { input = whole 1; cache_read = record { coeff = 1; scale = 1 }; output = whole 2 }

abbrev item : TaskIdentity
item = ("t1", (0, (pos 7, 1)))

abbrev retained : List (TaskIdentity × Bool)
retained = (item, false) ∷ []

abbrev in_order : List TaskIdentity → List TaskIdentity
in_order items = items

unfoldable channel : DirectChannelCost
unfolding direct_channel_cost
channel = value_of (direct_channel_cost canonical_digest in_order (some lines) retained prices) tt

channel_costs :
    direct_channel_cost canonical_digest in_order (some lines) retained prices ≡ ok channel
unfolding channel direct_channel_cost
channel_costs = refl

direct_channel_cost-exact_iff_example :
    (events' : List ModelCallUsageEvent) × (s : Selected) × (model_call_events canonical_digest
        (some lines)
      ≡ ok events')
    × (select (keys retained) events' ≡ ok s)
    × HasExactness s retained channel
direct_channel_cost-exact_iff_example =
    direct_channel_cost-exact_iff canonical_digest in_order lines retained prices channel refl
      channel_costs

is_costed : lookup item channel.exact_by_identity ≡ some (whole 1)
unfolding channel direct_channel_cost
is_costed = refl

direct_channel_cost-sum_example :
    (events' : List ModelCallUsageEvent) × (s : Selected) × (infra : Bool) × (model_call_events
        canonical_digest
        (some lines)
      ≡ ok events')
    × (select (keys retained) events' ≡ ok s)
    × Occurs (item, infra) retained
    × IsExactly s item infra
    × All (λ x. IsPriced prices x.1) (terminals_in s)
    × (whole 1 ≡ sum_from (whole 0) (known_costs_of item (terminals_in s)))
direct_channel_cost-sum_example =
    direct_channel_cost-sum canonical_digest in_order lines retained prices channel item (whole 1)
      channel_costs is_costed
