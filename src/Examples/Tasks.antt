-- ===== src/Examples/Tasks.antt =====
-- The attempt budget at concrete inputs.
use agent_loop_gate.Base.{
  ℕ, ◌≤◌, String, Bool, true, none, some, List, [], ◌∷◌, ok, value_of, ◌≡◌, refl,
}
use agent_loop_gate.Base.Int.{pos}
use agent_loop_gate.Base.Decimals.{whole}
use agent_loop_gate.Schemas.{Digest}
use agent_loop_gate.Runtime.Tasks.{TaskPayload, task_1_1, TaskLedger, Position, task_attempt_count}
use agent_loop_gate.Runtime.Tasks.Runs.{
  Stamp, RunOutcome, raised, returned, BoundedRun, bounded_run_with_retry,
}
use agent_loop_gate.Runtime.Tasks.Budget.{empty, after_run, Reaches-IsWithin}

abbrev canonical_digest : TaskPayload → Digest
canonical_digest p = "sha256:0"

abbrev is_digest : String → Bool
is_digest s = true

abbrev position : Position
position = record { task_id = "t1"; trial = 0; seed = pos 7 }

abbrev stamp : Stamp
stamp = record { event_id = "TAE_1"; recorded_at = "t0" }

-- A run that fails after it bound a session, and one that returns.
abbrev failing : RunOutcome
failing = record {
  session = some "sha256:s1";
  end = raised "RuntimeError" "timeout";
  duration_ms = 5;
  start_stamp = stamp;
  bind_stamp = stamp;
  end_stamp = stamp;
}

abbrev passing : RunOutcome
passing = record failing {
  session = none;
  end = returned (record {
    id = "s1";
    termination_reason = "user_stop";
    agent_cost = some (whole 1);
    user_cost = none;
    message_count = 3;
  });
}

-- The wrapped function asks for one call more than the limit of two.
abbrev runs : ℕ → List RunOutcome
runs retries = failing ∷ passing ∷ passing ∷ []

unfoldable ran : TaskLedger × BoundedRun
unfolding bounded_run_with_retry
ran =
    value_of
      (bounded_run_with_retry canonical_digest is_digest task_1_1 "INV_1" 2 [] position 5 runs) tt

runs_twice :
    bounded_run_with_retry canonical_digest is_digest task_1_1 "INV_1" 2 [] position 5 runs ≡ ok ran
unfolding ran bounded_run_with_retry
runs_twice = refl

counts_two : task_attempt_count canonical_digest is_digest ran.0 position ≡ ok 2
unfolding task_attempt_count ran bounded_run_with_retry
counts_two = refl

Reaches-IsWithin_example : 2 ≤ 2
Reaches-IsWithin_example =
    Reaches-IsWithin canonical_digest is_digest task_1_1 "INV_1" 2 ran.0 position 2
      (after_run position 5 runs ran.1 empty runs_twice) counts_two
