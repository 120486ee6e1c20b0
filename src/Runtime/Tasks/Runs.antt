-- ===== src/Runtime/Tasks/Runs.antt =====
-- The runs that _install_global_attempt_budget and bind_current_task_attempt_session of
-- agentloopgate/runtime/tau3_evidence.py write to the ledger of task attempts.
use agent_loop_gate.Base.{
  ℕ, suc, ◌-◌, String, Bool, true, false, Option, none, some, List, [], ◌∷◌, ◌++◌, Result, ok, err,
  ◌>>=◌, same, leb, if◌then◌else◌, ◌==◌,
}
use agent_loop_gate.Base.Decimals.{Decimal}
use agent_loop_gate.Schemas.{Digest}
use agent_loop_gate.Runtime.Tasks.{
  TaskState, TaskVersion, task_1_1, task_version_eq, session_bound, completed, failed, TaskDetails,
  TaskPayload, event, TaskLedger, Position, locator_of, task_attempt_count,
}

-- What an event needs of its surroundings: its id, its time and, of a run, how long it took.
pub record Stamp : Type 0 where
  pub event_id : String
  pub recorded_at : String

-- What a call of `run_fn` did: the session that it bound, and an exception or a simulation.
pub record Simulation : Type 0 where
  pub id : String
  pub termination_reason : String
  pub agent_cost : Option Decimal
  pub user_cost : Option Decimal
  pub message_count : ℕ

pub data RunEnd : Type 0 where
  raised : String → String → RunEnd
  returned : Simulation → RunEnd

pub record RunOutcome : Type 0 where
  pub session : Option Digest
  pub end : RunEnd
  pub duration_ms : ℕ
  pub start_stamp : Stamp
  pub bind_stamp : Stamp
  pub end_stamp : Stamp

pub data RunError : Type 0 where
  ledger_error : String → RunError
  budget_exhausted : RunError
  run_raised : String → String → RunError

abbrev pub no_details : TaskDetails
no_details = record {
  duration_ms = none;
  error_type = none;
  error_message = none;
  simulation_id = none;
  termination_reason = none;
  agent_cost_usd = none;
  user_cost_usd = none;
  message_count = none;
}

abbrev pub end_details : ℕ → RunEnd → TaskDetails
end_details ms (raised type message) = record no_details {
  duration_ms = some ms;
  error_type = some type;
  error_message = some message;
}
end_details ms (returned s) = record no_details {
  duration_ms = some ms;
  simulation_id = some s.id;
  termination_reason = some s.termination_reason;
  agent_cost_usd = s.agent_cost;
  user_cost_usd = s.user_cost;
  message_count = some s.message_count;
}

abbrev pub end_state : RunEnd → TaskState
end_state (raised type message) = failed
end_state (returned s) = completed

abbrev pub end_result : RunEnd → Result RunError Simulation
end_result (raised type message) = err (run_raised type message)
end_result (returned s) = ok s

-- The fields session_binding_status, session_id_hash and source_locator of an event.
abbrev pub SessionFields : Type 0
SessionFields = Option String × (Option Digest × Option String)

abbrev pub no_session : SessionFields
no_session = (none, (none, none))

abbrev bound_fields : Option Digest → SessionFields
bound_fields none = (some "not_bound", (none, none))
bound_fields (some hash) = (some "bound", (some hash, some (locator_of hash)))

-- `_task_terminal_session_fields`
unfoldable pub task_terminal_session_fields : TaskVersion → Option Digest → SessionFields
task_terminal_session_fields version session =
    if same version task_1_1 then bound_fields session else no_session

-- The answer of bounded_run_with_retry: a failed run with the attempts consumed, or the runs
-- under a number of retries.
pub data BoundedRun : Type 0 where
  exhausted_after : ℕ → BoundedRun
  ran_with : ℕ → BoundedRun

abbrev pub minimum : ℕ → ℕ → ℕ
minimum a b = if leb a b then a else b

module _ (canonical_digest : TaskPayload → Digest) (is_digest : String → Bool)
    (version : TaskVersion) (invocation_id : String) (limit : ℕ) where
  unfoldable pub task_payload :
      Stamp → TaskState → Position → ℕ → SessionFields → TaskDetails → TaskPayload
  task_payload stamp state pos index (status, (hash, locator)) details = record {
    schema_version = some version;
    event_id = some stamp.event_id;
    invocation_id = some invocation_id;
    state = some state;
    recorded_at = some stamp.recorded_at;
    task_id = some pos.task_id;
    trial = some pos.trial;
    seed = some pos.seed;
    attempt_index = some index;
    session_binding_status = status;
    session_id_hash = hash;
    source_locator = locator;
    details = details;
  }

  -- `_append_task_event`
  unfoldable pub append_task_event : TaskLedger → TaskPayload → TaskLedger
  append_task_event ledger p =
      ledger ++ (event (record { payload = p; event_digest = some (canonical_digest p) }) ∷ [])

  -- `bind_current_task_attempt_session` in a run: its first call, which may append an event.
  unfoldable pub bind_session : TaskLedger → Stamp → Position → ℕ → Option Digest → TaskLedger
  unfolding append_task_event task_payload
  bind_session ledger stamp pos index none = ledger
  bind_session ledger stamp pos index (some hash) =
      if same version task_1_1
      then append_task_event ledger (
          task_payload stamp session_bound pos index (none, (some hash, some (locator_of hash)))
            no_details)
      else ledger

  -- The events of the attempt of an index.
  unfoldable pub write_attempt : TaskLedger → Position → ℕ → RunOutcome → TaskLedger
  unfolding append_task_event task_payload bind_session task_terminal_session_fields
  write_attempt ledger pos index o =
      append_task_event
        (bind_session
          (append_task_event ledger
            (task_payload o.start_stamp TaskState.started pos index no_session no_details))
          o.bind_stamp pos index o.session)
        (task_payload o.end_stamp (end_state o.end) pos index
          (task_terminal_session_fields version o.session) (end_details o.duration_ms o.end))

  abbrev pub Ran : Type 0
  Ran = TaskLedger × Result RunError Simulation

  unfoldable pub run_attempt : TaskLedger → Position → RunOutcome → Result String ℕ → Ran
  unfolding write_attempt
  run_attempt ledger pos o (err e) = (ledger, err (ledger_error e))
  run_attempt ledger pos o (ok prior) =
      if leb limit prior
      then (ledger, err budget_exhausted)
      else (write_attempt ledger pos (suc prior) o, end_result o.end)

  -- The inner function `recorded_run`, at a call whose `run_fn` does `o`.
  unfoldable pub recorded_run : TaskLedger → Position → RunOutcome → Ran
  unfolding task_attempt_count run_attempt
  recorded_run ledger pos o =
      run_attempt ledger pos o (task_attempt_count canonical_digest is_digest ledger pos)

  -- The ledger after the calls of `recorded_run` that the wrapped `run_with_retry` makes.
  unfoldable pub recorded_runs : TaskLedger → Position → List RunOutcome → TaskLedger
  unfolding recorded_run
  recorded_runs ledger pos [] = ledger
  recorded_runs ledger pos (o ∷ os) = recorded_runs (recorded_run ledger pos o).0 pos os

  -- `bounded_run_with_retry` without a fail-fast policy, where `runs` has the calls that the
  -- wrapped `run_with_retry` makes under a number of retries.
  unfoldable pub bounded_run_with_retry :
      TaskLedger → Position → ℕ → (ℕ → List RunOutcome) → Result String (TaskLedger × BoundedRun)
  unfolding task_attempt_count recorded_runs
  bounded_run_with_retry ledger pos requested runs = do
    consumed ← task_attempt_count canonical_digest is_digest ledger pos
    let retries = minimum requested (limit - consumed - 1)
    elim (limit - consumed == 0) [
      | true ↦ ok (ledger, exhausted_after consumed)
      | false ↦ ok (recorded_runs ledger pos (runs retries), ran_with retries)
    ]
