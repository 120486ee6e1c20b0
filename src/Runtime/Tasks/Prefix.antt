-- ===== src/Runtime/Tasks/Prefix.antt =====
-- The count of attempts as events are appended to the ledger.
use agent_loop_gate.Base.{
  ℕ, ◌+◌, ◌≤◌, String, Bool, true, false, not, some, List, [], ◌∷◌, ◌++◌, ok, ◌>>=◌, same,
  string_eq, option_eq, contains, length, distinct, if◌then◌else◌, ◌≡◌, refl, sym, ap, ◌∙◌, inl,
  inr, arith, >>=-eq-ok, raise_if-eq-ok, ok-injective, Bool-cases,
}
use agent_loop_gate.Schemas.{Digest}
use agent_loop_gate.Runtime.Tasks.{
  TaskPayload, TaskEvent, blank, malformed, event, TaskLedger, TaskLifecycle, no_attempts, Position,
  task_attempt_count, verified_task_attempt_events, read_tasks, follow_task, follow_tasks,
  attempts_at, matches, attempt_eq, attempt_of,
}

length-distinct : (xs : List (String × ℕ)) → length (distinct xs) ≤ length xs
length-distinct [] = omega arith
length-distinct (x ∷ xs) = ground (arith, length-distinct xs)

contains-append :
    (y : String × ℕ) (xs tail : List (String × ℕ))
    → contains y xs ≡ true
    → contains y (xs ++ tail) ≡ true
contains-append y [] tail h = cc h
contains-append y (x ∷ xs) tail h = ground (arith, contains-append y xs tail)

distinct-append :
    (xs tail : List (String × ℕ))
    → length (distinct (xs ++ tail)) ≤ length (distinct xs) + length tail
distinct-append [] tail = omega (arith, length-distinct tail)
distinct-append (y ∷ xs) tail = ground (arith, contains-append y xs tail, distinct-append xs tail)

grown :
    (old tail all : List (String × ℕ)) (n k : ℕ)
    → old ++ tail ≡ all
    → length tail ≡ k
    → length (distinct all) ≡ n
    → n ≤ length (distinct old) + k
grown old tail all n k split size count =
    let e : length (distinct (old ++ tail)) ≡ n = rw (sym split) at count in
    omega (arith, distinct-append old tail, size, e)

follow_tasks-append :
    (is_digest : String → Bool) (st last : TaskLifecycle) (ps : List TaskPayload) (p : TaskPayload)
    → follow_tasks is_digest st (ps ++ (p ∷ [])) ≡ ok last
    → (mid : TaskLifecycle) × (follow_tasks is_digest st ps ≡ ok mid)
unfolding follow_tasks
follow_tasks-append is_digest st last [] p h = (st, refl)
follow_tasks-append is_digest st last (q ∷ ps) p h =
    let (next, step, rest) = >>=-eq-ok (follow_task is_digest st q) _ h in
    let (mid, e) = follow_tasks-append is_digest next last ps p rest in (mid, rw step e)

-- What an appended event adds to a set of attempts.
abbrev pub step_of : Position → TaskPayload → ℕ
step_of pos p = if matches pos p then 1 else 0

attempts_at-skip :
    (pos : Position) (p : TaskPayload) (ps : List TaskPayload)
    → matches pos p ≡ false
    → attempts_at pos (p ∷ ps) ≡ attempts_at pos ps
unfolding attempts_at
attempts_at-skip pos p ps h = rw (h, attempts_at)

attempts_at-take :
    (pos : Position) (p : TaskPayload) (ps : List TaskPayload)
    → matches pos p ≡ true
    → attempts_at pos (p ∷ ps)
      ≡ (attempt_of p p.attempt_index >>= λ a. attempts_at pos ps >>= λ rest. ok (a ∷ rest))
unfolding attempts_at
attempts_at-take pos p ps h = rw (h, attempts_at)

-- The attempts of the longer list, which has a part more.
abbrev HasMore : Position → List TaskPayload → TaskPayload → List (String × ℕ) → Type 0
HasMore pos ps p all =
    (old : List (String × ℕ)) × (tail : List (String × ℕ)) × (attempts_at pos ps ≡ ok old)
    × (old ++ tail ≡ all)
    × (length tail ≡ step_of pos p)

attempts_at-one :
    (pos : Position) (p : TaskPayload) (all : List (String × ℕ))
    → attempts_at pos (p ∷ []) ≡ ok all
    → length all ≡ step_of pos p
unfolding attempts_at
attempts_at-one pos p all h = elim (Bool-cases (matches pos p)) [
  | inl t ↦
      let (a, e, rest) =
        >>=-eq-ok (attempt_of p p.attempt_index) _ (rw (attempts_at-take pos p [] t) at h) in
      rw (sym (ok-injective rest), t) refl
  | inr f ↦
      let e : attempts_at pos [] ≡ ok all = rw (attempts_at-skip pos p [] f) at h in
      rw (sym (ok-injective e), f) refl
]

attempts_at-append :
    (pos : Position) (ps : List TaskPayload) (p : TaskPayload) (all : List (String × ℕ))
    → attempts_at pos (ps ++ (p ∷ [])) ≡ ok all
    → HasMore pos ps p all
unfolding attempts_at
attempts_at-append pos [] p all h = ([], all, refl, refl, attempts_at-one pos p all h)
attempts_at-append pos (q ∷ ps) p all h = elim (Bool-cases (matches pos q)) [
  | inl t ↦
      let (a, here, rest) =
        >>=-eq-ok (attempt_of q q.attempt_index) _
          (rw (attempts_at-take pos q (ps ++ (p ∷ [])) t) at h) in
      let (more, reads, last) = >>=-eq-ok (attempts_at pos (ps ++ (p ∷ []))) _ rest in
      let (old, tail, e, joined, size) = attempts_at-append pos ps p more reads in
      (
        a ∷ old,
        tail,
        attempts_at-take pos q ps t ∙ rw (here, e) refl,
        ap (λ l. a ∷ l) joined ∙ ok-injective last,
        size,
      )
  | inr f ↦
      let (old, tail, e, joined, size) =
        attempts_at-append pos ps p all (rw (attempts_at-skip pos q (ps ++ (p ∷ [])) f) at h) in
      (old, tail, attempts_at-skip pos q ps f ∙ e, joined, size)
]

module _ (canonical_digest : TaskPayload → Digest) (is_digest : String → Bool) where
  read_tasks-append :
      (ledger : TaskLedger) (e : TaskEvent) (all : List TaskPayload)
      → read_tasks canonical_digest is_digest (ledger ++ (event e ∷ [])) ≡ ok all
      → (old : List TaskPayload) × (read_tasks canonical_digest is_digest ledger ≡ ok old)
        × (old ++ (e.payload ∷ []) ≡ all)
  unfolding read_tasks
  read_tasks-append [] e all h =
      let (agree, rest) =
        raise_if-eq-ok (not (same e.event_digest (some (canonical_digest e.payload)))) _ _ h in
      ([], refl, ok-injective rest)
  read_tasks-append (blank ∷ ledger) e all h = read_tasks-append ledger e all h
  read_tasks-append (malformed ∷ ledger) e all h = cc h
  read_tasks-append (event f ∷ ledger) e all h =
      let (agree, rest) =
        raise_if-eq-ok (not (same f.event_digest (some (canonical_digest f.payload)))) _ _ h in
      let (more, reads, last) =
        >>=-eq-ok (read_tasks canonical_digest is_digest (ledger ++ (event e ∷ []))) _ rest in
      let (old, e1, e2) = read_tasks-append ledger e more reads in
      (f.payload ∷ old, rw (agree, e1), ap (λ l. f.payload ∷ l) e2 ∙ ok-injective last)

  -- The ledger before an appended event is verified too, and counts at most one attempt less, and
  -- that only where the event starts an attempt at the position.
  pub task_attempt_count-append :
      (ledger : TaskLedger) (e : TaskEvent) (pos : Position) (n : ℕ)
      → task_attempt_count canonical_digest is_digest (ledger ++ (event e ∷ [])) pos ≡ ok n
      → (m : ℕ) × (task_attempt_count canonical_digest is_digest ledger pos ≡ ok m)
        × (n ≤ m + step_of pos e.payload)
  unfolding task_attempt_count verified_task_attempt_events
  task_attempt_count-append ledger e pos n h =
      let (ps, verified, h1) =
        >>=-eq-ok
          (verified_task_attempt_events canonical_digest is_digest (ledger ++ (event e ∷ []))) _
          h in
      let (all, attempts, h2) = >>=-eq-ok (attempts_at pos ps) _ h1 in
      let (read, reads, v1) =
        >>=-eq-ok (read_tasks canonical_digest is_digest (ledger ++ (event e ∷ []))) _ verified in
      let (last, follows, v2) = >>=-eq-ok (follow_tasks is_digest no_attempts read) _ v1 in
      let (before, read_before, joined) = read_tasks-append ledger e read reads in
      let (mid, follows_before) =
        follow_tasks-append is_digest no_attempts last before e.payload
          (rw (sym joined) at follows) in
      let same_events : before ++ (e.payload ∷ []) ≡ ps = joined ∙ ok-injective v2 in
      let (old, tail, counted, split, size) =
        attempts_at-append pos before e.payload all (rw (sym same_events) at attempts) in
      (
        length (distinct old),
        rw (read_before, follows_before, counted) refl,
        grown old tail all n (step_of pos e.payload) split size (ok-injective h2),
      )
