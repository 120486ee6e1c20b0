-- ===== src/Ledger/Calls.antt =====
-- The ledger of model calls as agentloopgate/experiment/ledger.py reads it: _model_call_events,
-- _model_call_terminals and _unresolved_model_calls.
use agent_loop_gate.Base.{
  ℕ, String, Bool, true, false, not, ◌&&◌, ◌||◌, Option, none, some, List, [], ◌∷◌, Result, ok, err,
  raise_if, ◌>>◌, ◌>>=◌, same, contains, lookup, insert, keys, values, length, filter, map,
  is_subset, distinct, string_eq, nat_eq, option_eq, if◌then◌else◌,
}
use agent_loop_gate.Base.Int.{int_eq}
use agent_loop_gate.Schemas.{Digest, ArtifactId}
use agent_loop_gate.Runtime.Usage.{
  ModelCallUsageEvent, DigestPayload, started, attempt_state_eq, check_call,
  verify_model_call_event,
}
pub mod Steps
pub mod Sets
pub mod Balance
pub mod Terminals

-- A line of a ledger: only blanks, the event that its JSON holds, or neither.
pub data Line : Type 0 where
  blank malformed : Line
  event : ModelCallUsageEvent → Line

-- A ledger file, none where the path is None or no file.
abbrev pub LedgerFile : Type 0
LedgerFile = Option (List Line)

-- The local variables `started` and `terminal` of the lifecycle check.
pub record Lifecycle : Type 0 where
  pub opened : List (ArtifactId × ModelCallUsageEvent)
  pub closed : List ArtifactId

abbrev pub no_calls : Lifecycle
no_calls = record { opened = []; closed = [] }

abbrev pub is_started : ModelCallUsageEvent → Bool
is_started e = same e.fields.state started

abbrev pub is_terminal : ModelCallUsageEvent → Bool
is_terminal e = not (is_started e)

-- No field of `identity_fields` differs.
unfoldable pub same_identity : ModelCallUsageEvent → ModelCallUsageEvent → Bool
same_identity a b =
    same a.fields.session_id_hash b.fields.session_id_hash
    && same a.fields.model b.fields.model
    && same a.fields.task_id b.fields.task_id
    && same a.fields.trial b.fields.trial
    && same a.fields.seed b.fields.seed
    && same a.fields.task_attempt_index b.fields.task_attempt_index

unfoldable pub close_call :
    Lifecycle → ModelCallUsageEvent → Option ModelCallUsageEvent → Result String Lifecycle
unfolding same_identity
close_call st e none = err "model call terminal event has no STARTED event"
close_call st e (some initial) = do
  raise_if (contains e.fields.call_id st.closed)
      "model call ledger contains duplicate terminal events"
  raise_if (not (same_identity initial e)) "model call lifecycle changed its direct identity"
  ok (record st { closed = e.fields.call_id ∷ st.closed })

unfoldable pub open_call : Lifecycle → ModelCallUsageEvent → Result String Lifecycle
open_call st e = do
  raise_if (contains e.fields.call_id (keys st.opened))
      "model call ledger contains duplicate STARTED events"
  ok (record st { opened = insert e.fields.call_id e st.opened })

unfoldable pub follow_call : Lifecycle → ModelCallUsageEvent → Result String Lifecycle
unfolding open_call close_call
follow_call st e =
    if is_started e then open_call st e else close_call st e (lookup e.fields.call_id st.opened)

unfoldable pub follow_calls : Lifecycle → List ModelCallUsageEvent → Result String Lifecycle
unfolding follow_call
follow_calls st [] = ok st
follow_calls st (e ∷ es) = follow_call st e >>= λ next. follow_calls next es

abbrev pub call_ids : List ModelCallUsageEvent → List ArtifactId
call_ids es = map (λ e. e.fields.call_id) es

abbrev pub difference : List ArtifactId → List ArtifactId → List ArtifactId
difference xs ys = filter (λ x. not (contains x ys)) xs

-- The dictionary `terminals` of _model_call_terminals.
unfoldable pub collect_terminals :
    List (ArtifactId × ModelCallUsageEvent)
    → List ModelCallUsageEvent
    → Result String (List (ArtifactId × ModelCallUsageEvent))
collect_terminals found [] = ok found
collect_terminals found (e ∷ es) = elim (is_terminal e) [
  | true ↦ do
    raise_if (contains e.fields.call_id (keys found))
        "model call ledger contains duplicate terminal events"
    collect_terminals (insert e.fields.call_id e found) es
  | false ↦ collect_terminals found es
]

module _ (canonical_digest : DigestPayload → Digest) where
  unfoldable pub read_events : List Line → Result String (List ModelCallUsageEvent)
  unfolding check_call verify_model_call_event
  read_events [] = ok []
  read_events (blank ∷ rest) = read_events rest
  read_events (malformed ∷ rest) = err "validation error"
  read_events (event e ∷ rest) = do
    check_call e.fields
    verify_model_call_event canonical_digest e
    events ← read_events rest
    ok (e ∷ events)

  -- `_model_call_events`
  unfoldable pub model_call_events : LedgerFile → Result String (List ModelCallUsageEvent)
  unfolding read_events follow_calls
  model_call_events none = ok []
  model_call_events (some lines) = do
    events ← read_events lines
    st ← follow_calls no_calls events
    ok events

  -- `_model_call_terminals`
  unfoldable pub model_call_terminals : LedgerFile → Result String (List ModelCallUsageEvent)
  unfolding model_call_events collect_terminals
  model_call_terminals file = do
    events ← model_call_events file
    terminals ← collect_terminals [] events
    ok (values terminals)

  -- `_unresolved_model_calls`
  unfoldable pub unresolved_model_calls : LedgerFile → Result String ℕ
  unfolding model_call_events
  unresolved_model_calls file = do
    events ← model_call_events file
    let opened = distinct (call_ids (filter is_started events))
    let closed = distinct (call_ids (filter is_terminal events))
    raise_if (not (is_subset closed opened)) "model call terminal event has no STARTED event"
    ok (length (difference opened closed))
