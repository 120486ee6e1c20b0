-- ===== src/Runtime/Tasks.antt =====
-- The ledger of task attempts of agentloopgate/runtime/tau3_evidence.py: its verification, and the
-- bounded runs that write it. Parameters: the canonical digest, the ids and times of new events, the
-- limit, the ledger's version and this invocation. A ledger file that is missing is a ledger without
-- a line.
use Prim.Native.String.{◌++◌ as str_append}
use agent_loop_gate.Base.{
  ℕ, suc, ◌+◌, ◌-◌, String, Bool, true, false, not, ◌&&◌, ◌||◌, Option, none, some, List, [], ◌∷◌,
  ◌++◌, Result, ok, err, raise_if, ◌>>◌, ◌>>=◌, same, contains, lookup, insert, keys, length, leb,
  distinct, is_none, string_eq, nat_eq, option_eq, product_eq, if◌then◌else◌, Eq, eq_of_discrete,
  ◌==◌,
}
use agent_loop_gate.Base.Int.{ℤ, int_eq}
use agent_loop_gate.Base.Decimals.{Decimal}
use agent_loop_gate.Schemas.{Digest}
pub mod Runs
pub mod Prefix
pub mod Budget

pub data TaskState : Type 0 where
  started session_bound completed failed : TaskState

pub data TaskVersion : Type 0 where
  task_1_0 task_1_1 : TaskVersion

abbrev pub TaskState-discrete : Discrete TaskState
TaskState-discrete = hlevel

instance abbrev pub task_state_eq : Eq TaskState
task_state_eq = eq_of_discrete TaskState-discrete

abbrev pub TaskVersion-discrete : Discrete TaskVersion
TaskVersion-discrete = hlevel

instance abbrev pub task_version_eq : Eq TaskVersion
task_version_eq = eq_of_discrete TaskVersion-discrete

-- The keywords `details` that no check reads.
pub record TaskDetails : Type 0 where
  pub duration_ms : Option ℕ
  pub error_type : Option String
  pub error_message : Option String
  pub simulation_id : Option String
  pub termination_reason : Option String
  pub agent_cost_usd : Option Decimal
  pub user_cost_usd : Option Decimal
  pub message_count : Option ℕ

-- An event but its digest: a missing key is none, as is a version or a state that no case names.
pub record TaskPayload : Type 0 where
  pub schema_version : Option TaskVersion
  pub event_id : Option String
  pub invocation_id : Option String
  pub state : Option TaskState
  pub recorded_at : Option String
  pub task_id : Option String
  pub trial : Option ℕ
  pub seed : Option ℤ
  pub attempt_index : Option ℕ
  pub session_binding_status : Option String
  pub session_id_hash : Option Digest
  pub source_locator : Option String
  pub details : TaskDetails

pub record TaskEvent : Type 0 where
  pub payload : TaskPayload
  pub event_digest : Option Digest

-- A line: only blanks, the event that its JSON holds, or neither.
pub data TaskLine : Type 0 where
  blank malformed : TaskLine
  event : TaskEvent → TaskLine

abbrev pub TaskLedger : Type 0
TaskLedger = List TaskLine

pub record Position : Type 0 where
  pub task_id : String
  pub trial : ℕ
  pub seed : ℤ

abbrev pub AttemptKey : Type 0
AttemptKey = Option String × (Option String × (Option ℕ × (Option ℤ × Option ℕ)))

instance abbrev pub attempt_key_eq : Eq AttemptKey
attempt_key_eq =
    product_eq option_eq
      (product_eq option_eq (product_eq option_eq (product_eq option_eq option_eq)))

abbrev pub key_of : TaskPayload → AttemptKey
key_of p = (p.invocation_id, (p.task_id, (p.trial, (p.seed, p.attempt_index))))

-- The local variables `started`, `bound` and `terminal`.
pub record TaskLifecycle : Type 0 where
  pub begun : List (AttemptKey × TaskPayload)
  pub bound : List (AttemptKey × TaskPayload)
  pub ended : List AttemptKey

abbrev pub no_attempts : TaskLifecycle
no_attempts = record { begun = []; bound = []; ended = [] }

abbrev pub locator_of : Digest → String
locator_of hash = str_append "dsh-session:" hash

module _ (is_digest : String → Bool) where
  -- `session_id_hash` matches its pattern and the locator names it.
  abbrev is_bad_binding : Option Digest → Option String → Bool
  is_bad_binding none locator = true
  is_bad_binding (some hash) locator =
      not (is_digest hash) || not (same locator (some (locator_of hash)))

  unfoldable pub bind_task : TaskLifecycle → TaskPayload → Result String TaskLifecycle
  bind_task st p = do
    raise_if (contains (key_of p) (keys st.bound))
        "task attempt ledger contains duplicate session binding"
    raise_if (is_bad_binding p.session_id_hash p.source_locator)
        "task attempt session binding is invalid"
    ok (record st { bound = insert (key_of p) p st.bound })

abbrev is_unbound_conflict : TaskPayload → Option TaskPayload → Bool
is_unbound_conflict p none = not (same p.session_binding_status (some "not_bound"))
is_unbound_conflict p (some b) = false

abbrev is_bound_conflict : TaskPayload → Option TaskPayload → Bool
is_bound_conflict p none = false
is_bound_conflict p (some b) =
    not (same p.session_binding_status (some "bound"))
    || not (same p.session_id_hash b.session_id_hash)
    || not (same p.source_locator b.source_locator)

unfoldable pub end_task : TaskLifecycle → TaskPayload → Result String TaskLifecycle
end_task st p = do
  raise_if (contains (key_of p) st.ended) "task attempt ledger contains duplicate terminal events"
  raise_if
      (same p.schema_version (some task_1_1) && is_unbound_conflict p (lookup (key_of p) st.bound))
      "unbound task attempt terminal must say not_bound"
  raise_if
      (same p.schema_version (some task_1_1) && is_bound_conflict p (lookup (key_of p) st.bound))
      "task attempt terminal changed its session binding"
  ok (record st { ended = key_of p ∷ st.ended })

unfoldable pub begin_task : TaskLifecycle → TaskPayload → Result String TaskLifecycle
begin_task st p = do
  raise_if (contains (key_of p) (keys st.begun))
      "task attempt ledger contains duplicate STARTED events"
  ok (record st { begun = insert (key_of p) p st.begun })

abbrev pub is_begun : TaskPayload → Bool
is_begun p = same p.state (some TaskState.started)

abbrev is_unsupported : TaskPayload → Bool
is_unsupported p =
    is_none p.state || (same p.schema_version (some task_1_0) && same p.state (some session_bound))

abbrev no_match : TaskPayload → Option TaskPayload → Bool
no_match p none = true
no_match p (some initial) = not (same initial.schema_version p.schema_version)

module _ (is_digest : String → Bool) where
  -- The checks of an event that follows its STARTED event.
  unfoldable pub follow_started : TaskLifecycle → TaskPayload → Result String TaskLifecycle
  unfolding bind_task end_task
  follow_started st p = do
    raise_if (no_match p (lookup (key_of p) st.begun))
        "task attempt event has no matching STARTED identity"
    if same p.state (some session_bound) then bind_task is_digest st p else end_task st p

  unfoldable pub follow_task : TaskLifecycle → TaskPayload → Result String TaskLifecycle
  unfolding begin_task follow_started
  follow_task st p = do
    raise_if (is_none p.schema_version) "unsupported task attempt ledger schema"
    raise_if (is_unsupported p) "invalid task attempt state"
    if is_begun p then begin_task st p else follow_started st p

  unfoldable pub follow_tasks : TaskLifecycle → List TaskPayload → Result String TaskLifecycle
  unfolding follow_task
  follow_tasks st [] = ok st
  follow_tasks st (p ∷ ps) = follow_task st p >>= λ next. follow_tasks next ps

abbrev pub matches : Position → TaskPayload → Bool
matches pos p =
    is_begun p
    && same p.task_id (some pos.task_id)
    && same p.trial (some pos.trial)
    && same p.seed (some pos.seed)

-- `str(event.get("invocation_id"))`
abbrev text_of : Option String → String
text_of none = "None"
text_of (some s) = s

abbrev attempt_of : TaskPayload → Option ℕ → Result String (String × ℕ)
attempt_of p none = err "KeyError"
attempt_of p (some index) = ok (text_of p.invocation_id, index)

instance abbrev pub attempt_eq : Eq (String × ℕ)
attempt_eq = product_eq string_eq nat_eq

-- The pairs that are added to the set `started` of task_attempt_count.
unfoldable pub attempts_at : Position → List TaskPayload → Result String (List (String × ℕ))
attempts_at pos [] = ok []
attempts_at pos (p ∷ ps) = elim (matches pos p) [
  | false ↦ attempts_at pos ps
  | true ↦ do attempt ← attempt_of p p.attempt_index; rest ← attempts_at pos ps; ok (attempt ∷ rest)
]

module _ (canonical_digest : TaskPayload → Digest) (is_digest : String → Bool) where
  unfoldable pub read_tasks : TaskLedger → Result String (List TaskPayload)
  read_tasks [] = ok []
  read_tasks (blank ∷ rest) = read_tasks rest
  read_tasks (malformed ∷ rest) = err "invalid task attempt ledger line"
  read_tasks (event e ∷ rest) = do
    raise_if (not (same e.event_digest (some (canonical_digest e.payload))))
        "task attempt ledger digest mismatch"
    ps ← read_tasks rest
    ok (e.payload ∷ ps)

  -- `verified_task_attempt_events`
  unfoldable pub verified_task_attempt_events : TaskLedger → Result String (List TaskPayload)
  unfolding read_tasks follow_tasks
  verified_task_attempt_events ledger = do
    ps ← read_tasks ledger
    st ← follow_tasks is_digest no_attempts ps
    ok ps

  -- `task_attempt_count`
  unfoldable pub task_attempt_count : TaskLedger → Position → Result String ℕ
  unfolding verified_task_attempt_events attempts_at
  task_attempt_count ledger pos = do
    ps ← verified_task_attempt_events ledger
    attempts ← attempts_at pos ps
    ok (length (distinct attempts))
