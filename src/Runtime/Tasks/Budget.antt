-- ===== src/Runtime/Tasks/Budget.antt =====
-- The global attempt budget of agentloopgate/runtime/tau3_evidence.py.
use agent_loop_gate.Base.{
  ℕ, suc, ◌-◌, ◌≤◌, String, Bool, true, false, Option, none, some, List, [], ◌∷◌, Result, ok, err,
  same, leb, ◌≡◌, refl, sym, ◌∙◌, ◌&&◌, same_iff, string_eq, nat_eq, inl, inr, arith, >>=-eq-ok,
  ok-injective, Bool-cases, ◌==◌,
}
use agent_loop_gate.Base.Int.{int_eq}
use mathlib.Core.Path.{subst}
use agent_loop_gate.Schemas.{Digest}
use agent_loop_gate.Runtime.Tasks.{
  TaskState, TaskVersion, task_1_1, task_version_eq, TaskPayload, TaskLedger, Position,
  task_attempt_count, matches,
}
use agent_loop_gate.Runtime.Tasks.Prefix.{task_attempt_count-append, step_of}
use agent_loop_gate.Runtime.Tasks.Runs.{
  Stamp, RunEnd, raised, returned, RunOutcome, BoundedRun, SessionFields, end_state, bind_session,
  task_payload, append_task_event, write_attempt, run_attempt, recorded_run, recorded_runs,
  bounded_run_with_retry, minimum, no_details, no_session, end_details,
  task_terminal_session_fields,
}

both_true : (a b c : Bool) → (a && b && c) ≡ true → (a ≡ true) × (b ≡ true) × (c ≡ true)
both_true true true true h = (refl, refl, refl)
both_true false b c h = cc h
both_true true false c h = cc h
both_true true true false h = cc h

same_position :
    (pos at : Position)
    → pos.task_id ≡ at.task_id
    → pos.trial ≡ at.trial
    → pos.seed ≡ at.seed
    → pos ≡ at
same_position pos at a b c = λ i. record { task_id = a i; trial = b i; seed = c i }

module _ (canonical_digest : TaskPayload → Digest) (is_digest : String → Bool)
    (version : TaskVersion) (invocation_id : String) (limit : ℕ) where
  -- The ledger counts no more than the limit at a position, if it is verified.
  abbrev pub IsWithin : Position → TaskLedger → Type 0
  IsWithin pos ledger =
      (n : ℕ) → task_attempt_count canonical_digest is_digest ledger pos ≡ ok n → n ≤ limit

  -- An event that starts no attempt leaves the count.
  append-IsWithin :
      (ledger : TaskLedger) (p : TaskPayload) (pos : Position)
      → step_of pos p ≡ 0
      → IsWithin pos ledger
      → IsWithin pos
          (append_task_event canonical_digest is_digest version invocation_id limit ledger p)
  unfolding append_task_event
  append-IsWithin ledger p pos h within n count =
      let (m, before, bound) =
        task_attempt_count-append canonical_digest is_digest ledger _ pos n count in
      omega (arith, bound, h, within m before)

  bind-IsWithin :
      (ledger : TaskLedger) (stamp : Stamp) (at : Position) (index : ℕ) (session : Option Digest)
      (pos : Position)
      → IsWithin pos ledger
      → IsWithin pos (
          bind_session canonical_digest is_digest version invocation_id limit ledger stamp at index
            session)
  unfolding bind_session task_payload
  bind-IsWithin ledger stamp at index none pos within = within
  bind-IsWithin ledger stamp at index (some hash) pos within =
      elim (Bool-cases (same version task_1_1)) [
        | inl p ↦ rw p (append-IsWithin ledger _ pos refl within)
        | inr p ↦ rw p within
      ]

  end-step :
      (o : RunEnd) (stamp : Stamp) (at pos : Position) (index : ℕ) (f : SessionFields) (ms : ℕ)
      → step_of pos (
          task_payload canonical_digest is_digest version invocation_id limit stamp
            (end_state o)
            at
            index
            f
            (end_details ms o))
        ≡ 0
  unfolding task_payload
  end-step (raised t m) stamp at pos index f ms = refl
  end-step (returned s) stamp at pos index f ms = refl

  start-IsWithin :
      (ledger : TaskLedger) (p : TaskPayload) (pos : Position) (prior : ℕ)
      → (step_of pos p ≡ 1 → task_attempt_count canonical_digest is_digest ledger pos ≡ ok prior)
      → suc prior ≤ limit
      → IsWithin pos ledger
      → IsWithin pos
          (append_task_event canonical_digest is_digest version invocation_id limit ledger p)
  unfolding append_task_event
  start-IsWithin ledger p pos prior counted h within n count =
      let (m, before, bound) =
        task_attempt_count-append canonical_digest is_digest ledger _ pos n count in
      elim (Bool-cases (matches pos p)) [
        | inl t ↦
            let e : m ≡ prior = ok-injective (sym before ∙ counted (rw t refl)) in
            let one : step_of pos p ≡ 1 = rw t refl in omega (arith, bound, e, one, h)
        | inr f ↦ let z : step_of pos p ≡ 0 = rw f refl in omega (arith, bound, z, within m before)
      ]

  -- Only the position itself starts an attempt of its own.
  start-step :
      (stamp : Stamp) (at pos : Position) (index : ℕ)
      → step_of pos (
          task_payload canonical_digest is_digest version invocation_id limit stamp
            TaskState.started at index no_session no_details)
        ≡ 1
      → pos ≡ at
  unfolding task_payload
  start-step stamp at pos index h =
      elim (Bool-cases
        (same at.task_id pos.task_id && same at.trial pos.trial && same at.seed pos.seed)) [
          | inl p ↦
              let (a, b, c) =
                both_true (same at.task_id pos.task_id) (same at.trial pos.trial)
                  (same at.seed pos.seed) p in
              same_position pos at (sym ((same_iff at.task_id pos.task_id).0 a))
                (sym ((same_iff at.trial pos.trial).0 b)) (sym ((same_iff at.seed pos.seed).0 c))
          | inr p ↦ absurd (cc (rw p at h))
        ]

  run_attempt-IsWithin :
      (ledger : TaskLedger) (at pos : Position) (o : RunOutcome) (prior : Result String ℕ)
      → task_attempt_count canonical_digest is_digest ledger at ≡ prior
      → IsWithin pos ledger
      → IsWithin pos
          (run_attempt canonical_digest is_digest version invocation_id limit ledger at o prior).0
  unfolding run_attempt write_attempt
  run_attempt-IsWithin ledger at pos o (err e) count within = within
  run_attempt-IsWithin ledger at pos o (ok prior) count within =
      elim (Bool-cases (leb limit prior)) [
        | inl p ↦ rw p within
        | inr p ↦ rw p (
            append-IsWithin _ _ pos
              (end-step o.end o.end_stamp at pos (suc prior)
                (task_terminal_session_fields version o.session) o.duration_ms)
              (bind-IsWithin _ o.bind_stamp at (suc prior) o.session pos (
                start-IsWithin ledger _ pos prior
                  (λ h.
                    subst
                      (λ (q : Position).
                        task_attempt_count canonical_digest is_digest ledger q ≡ ok prior)
                      (sym (start-step o.start_stamp at pos (suc prior) h)) count)
                  (ground (arith, p)) within)))
      ]

  recorded_runs-IsWithin :
      (ledger : TaskLedger) (at pos : Position) (os : List RunOutcome)
      → IsWithin pos ledger
      → IsWithin pos
          (recorded_runs canonical_digest is_digest version invocation_id limit ledger at os)
  unfolding recorded_runs recorded_run
  recorded_runs-IsWithin ledger at pos [] within = within
  recorded_runs-IsWithin ledger at pos (o ∷ os) within =
      recorded_runs-IsWithin
        (recorded_run canonical_digest is_digest version invocation_id limit ledger at o).0 at pos
        os (run_attempt-IsWithin ledger at pos o _ refl within)

  -- bounded_run_with_retry leaves a position within the limit, whatever the runs do, which position
  -- they are of, and however often the wrapped run_with_retry calls them.
  bounded_run_with_retry-IsWithin :
      (ledger after : TaskLedger) (at pos : Position) (requested : ℕ) (runs : ℕ → List RunOutcome)
      (answer : BoundedRun)
      → bounded_run_with_retry canonical_digest is_digest version invocation_id limit ledger at
          requested runs
        ≡ ok (after, answer)
      → IsWithin pos ledger
      → IsWithin pos after
  unfolding bounded_run_with_retry
  bounded_run_with_retry-IsWithin ledger after at pos requested runs answer h within =
      let (consumed, count, rest) =
        >>=-eq-ok (task_attempt_count canonical_digest is_digest ledger at) _ h in
      let retries = minimum requested (limit - consumed - 1) in
      elim (Bool-cases (limit - consumed == 0)) [
        | inl p ↦
            subst (λ (x : TaskLedger × BoundedRun). IsWithin pos x.0) (ok-injective (rw p at rest))
              within
        | inr p ↦
            subst (λ (x : TaskLedger × BoundedRun). IsWithin pos x.0) (ok-injective (rw p at rest))
              (recorded_runs-IsWithin ledger at pos (runs retries) within)
      ]

  -- The ledgers that bounded runs write from an empty one, at any positions and in any order.
  pub data Reaches : TaskLedger → Type 0 where
    empty : Reaches []
    after_run :
        {ledger after : TaskLedger} (at : Position) (requested : ℕ) (runs : ℕ → List RunOutcome)
        (answer : BoundedRun)
        → Reaches ledger
        → bounded_run_with_retry canonical_digest is_digest version invocation_id limit ledger at
            requested runs
          ≡ ok (after, answer)
        → Reaches after

  -- On a ledger that bounded runs wrote from an empty one, at any positions, in any order, with
  -- whatever the runs do and however often the wrapped run_with_retry calls them,
  -- task_attempt_count never returns more than the limit.
  pub Reaches-IsWithin :
      (ledger : TaskLedger) (pos : Position) (n : ℕ)
      → Reaches ledger
      → task_attempt_count canonical_digest is_digest ledger pos ≡ ok n
      → n ≤ limit
  unfolding task_attempt_count
  Reaches-IsWithin ledger pos n empty count = let e : 0 ≡ n = ok-injective count in omega (arith, e)
  Reaches-IsWithin ledger pos n (after_run {ledger = before} at requested runs answer reached h)
        count =
      bounded_run_with_retry-IsWithin before ledger at pos requested runs answer h
        (λ m c. Reaches-IsWithin before pos m reached c) n count
