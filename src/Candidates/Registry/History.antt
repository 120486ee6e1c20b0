-- ===== src/Candidates/Registry/History.antt =====
-- The event logs of agentloopgate/candidates/registry.py.
use mathlib.Core.Path.{subst}
use agent_loop_gate.Base.{
  string_eq, ℕ, ◌+◌, Bool, true, false, not, Option, none, some, List, [], ◌∷◌, ◌++◌, Result, ok,
  err, >>=-eq-ok, raise_if-eq-ok, ok-injective, same, contains, lookup, lookup-insert, same_iff,
  insert, length, if◌then◌else◌, str_eq, ◌≡◌, ◌⊎◌, inl, inr, refl, sym, ap, ◌∙◌, arith,
}
use agent_loop_gate.Schemas.{
  RiskTier, CandidateStatus, checked, held, candidate_status_eq, is_artifact_id, ArtifactId, Digest,
  NonEmpty, UtcDateTime,
}
use agent_loop_gate.Schemas.Candidate.{CandidateRecord, FailureBundle}
use agent_loop_gate.Mutation.Models.{CheckDisposition, pass, hold, reject, MutationPolicy}
use agent_loop_gate.Candidates.Registry.Events.{
  CandidateError, CandidateLifecycleEvent, Entry, Registry, transitions, last_of, last_record,
  events_at, load, append_event, transition, invalid_transition,
}
use agent_loop_gate.Candidates.Registry.Registration.{
  Registration, admit, register, new_record, with_directory, write, first_status,
}

-- A candidate starts as checked or held, and then follows the table of transitions.
abbrev pub Follows : Option CandidateStatus → CandidateStatus → Type 0
Follows none s = (s ≡ checked) ⊎ (s ≡ held)
Follows (some p) s = contains s (transitions p) ≡ true

-- The events after `n` events, the last of which had the status `previous`.
abbrev pub IsHistory : Option CandidateStatus → ℕ → List CandidateLifecycleEvent → Type 0
IsHistory previous n [] = Unit
IsHistory previous n (e ∷ es) =
    (e.ordinal ≡ n + 1)
    × (e.previous_status ≡ previous)
    × (e.record_of.status ≡ e.next_status)
    × Follows previous e.next_status
    × IsHistory (some e.next_status) (n + 1) es

abbrev pub IsValid : Registry → Type 0
IsValid [] = Unit
IsValid ((id, entry) ∷ g) = IsHistory none 0 entry.events × IsValid g

-- The status after the events.
abbrev pub after : Option CandidateStatus → List CandidateLifecycleEvent → Option CandidateStatus
after previous [] = previous
after previous (e ∷ es) = after (some e.next_status) es

IsHistory-append :
    (previous : Option CandidateStatus) (n : ℕ) (es : List CandidateLifecycleEvent)
    (e : CandidateLifecycleEvent)
    → IsHistory previous n es
    → e.ordinal ≡ n + length es + 1
    → e.previous_status ≡ after previous es
    → e.record_of.status ≡ e.next_status
    → Follows (after previous es) e.next_status
    → IsHistory previous n (es ++ (e ∷ []))
IsHistory-append previous n [] e h o p r f = (omega (arith, o), p, r, f, tt)
IsHistory-append previous n (d ∷ es) e h o p r f = (
  h.0,
  h.1,
  h.2,
  h.3,
  IsHistory-append (some d.next_status) (n + 1) es e h.4 (omega (arith, o)) p r f,
)

-- The last record of a history has the status after it.
last_of-status :
    (previous : Option CandidateStatus) (n : ℕ) (es : List CandidateLifecycleEvent)
    {r : CandidateRecord}
    → IsHistory previous n es
    → last_record (last_of es) ≡ ok r
    → after previous es ≡ some r.status
last_of-status previous n [] h k = cc
last_of-status previous n (e ∷ []) h k =
    ap (λ s. some s) (sym h.2) ∙ ap (λ (x : CandidateRecord). some x.status) (ok-injective k)
last_of-status previous n (e ∷ f ∷ es) h k =
    last_of-status (some e.next_status) (n + 1) (f ∷ es) h.4 k

found :
    (b : Bool) (o : Option Entry) (entry : Entry)
    → IsHistory none 0 entry.events
    → IsHistory none 0 (events_at o)
    → IsHistory none 0 (events_at (if b then some entry else o))
found true o entry h k = h
found false o entry h k = k

replaced : (b : Bool) (x y : Registry) → IsValid x → IsValid y → IsValid (if b then x else y)
replaced true x y h k = h
replaced false x y h k = k

lookup-IsValid :
    (id : ArtifactId) (g : Registry) → IsValid g → IsHistory none 0 (events_at (lookup id g))
lookup-IsValid id [] h = tt
lookup-IsValid id ((j, entry) ∷ g) h =
    found (same id j) (lookup id g) entry h.0 (lookup-IsValid id g h.1)

insert-IsValid :
    (id : ArtifactId) (entry : Entry) (g : Registry)
    → IsHistory none 0 entry.events
    → IsValid g
    → IsValid (insert id entry g)
insert-IsValid id entry [] h k = (h, tt)
insert-IsValid id entry ((j, old) ∷ g) h k =
    replaced (same id j) ((id, entry) ∷ g) ((j, old) ∷ insert id entry g) (h, k.1)
      (k.0, insert-IsValid id entry g h k.1)

append_event-IsValid :
    (g : Registry) (id : ArtifactId) (r : CandidateRecord) (previous : Option CandidateStatus)
    (actor : NonEmpty) (refs : List NonEmpty) (at : UtcDateTime)
    → IsValid g
    → previous ≡ after none (events_at (lookup id g))
    → Follows previous r.status
    → IsValid (append_event g id r previous actor refs at)
unfolding append_event
append_event-IsValid g id r previous actor refs at h k f =
    insert-IsValid id _ g
      (IsHistory-append none 0 (events_at (lookup id g)) _ (lookup-IsValid id g h) (omega arith) k
        refl (subst (λ p. Follows p r.status) k f))
      h

-- A transition that succeeds keeps every event log a history: the ordinals count from one, each event
-- continues from the status of the one before, and each step stands in the table.
pub transition-IsValid :
    (g : Registry) (id : ArtifactId) (next : CandidateStatus) (actor : NonEmpty)
    (refs : List NonEmpty) (at : UtcDateTime) {g' : Registry} {r : CandidateRecord}
    → transition g id next actor refs at ≡ ok (g', r)
    → IsValid g
    → IsValid g'
unfolding transition load
transition-IsValid g id next actor refs at h k =
    let (current, e, h1) = >>=-eq-ok (load g id) _ h in
    let (allowed, h2) =
      raise_if-eq-ok (not (contains next (transitions current.status)))
        (invalid_transition current.status next) _ h1 in
    let (safe, loaded) = raise_if-eq-ok (not (is_artifact_id id)) CandidateError.unsafe_id _ e in
    let at_status =
      last_of-status none 0 (events_at (lookup id g)) (lookup-IsValid id g k) loaded in
    subst (λ (x : Registry × CandidateRecord). IsValid x.0) (ok-injective h2)
      (append_event-IsValid g id (record current { status = next }) (some current.status) actor _ at
        k (sym at_status) (ground (arith, allowed)))

events_at-insert :
    (id : ArtifactId) (entry : Entry) (g : Registry)
    → events_at (lookup id (insert id entry g)) ≡ entry.events
events_at-insert id entry g =
    ap events_at (lookup-insert id id entry g)
    ∙ ap (λ (b : Bool). events_at (if b then some entry else lookup id g)) ((same_iff id id).1 refl)

first_status-Follows : (d : CheckDisposition) → Follows none (first_status d)
first_status-Follows pass = inl refl
first_status-Follows hold = inr refl
first_status-Follows reject = inr refl

if-IsValid :
    {A : Type 0} (b : Bool) (x y : Registry × A)
    → IsValid x.0
    → IsValid y.0
    → IsValid (if b then x else y).0
if-IsValid true x y h k = h
if-IsValid false x y h k = k

module _ (bundle_digest : FailureBundle → Digest) (policy : MutationPolicy) where
  write-IsValid :
      (g : Registry) (q : Registration) (m : Result CandidateError RiskTier)
      → IsValid g
      → IsValid (write bundle_digest policy g q m).0
  unfolding append_event
  write-IsValid g q (err e) h = h
  write-IsValid g q (ok tier) h =
      let empty = with_directory bundle_digest policy g q none in
      let fresh = with_directory bundle_digest policy g q (some q.check) in
      if-IsValid (not (str_eq q.stored_digest q.check.patch_digest)) _ _
        (insert-IsValid q.candidate_id (record { stored_check = none; events = [] }) g tt h)
        (append_event-IsValid fresh q.candidate_id (new_record bundle_digest policy q tier) none _ _
          _
          (insert-IsValid q.candidate_id (record { stored_check = some q.check; events = [] }) g tt
            h)
          (ap (after none) (
            sym (
              events_at-insert q.candidate_id (record { stored_check = some q.check; events = [] })
                g)))
          (first_status-Follows q.check.disposition))

  -- Registration keeps every event log a history, whether it succeeds or fails.
  pub register-IsValid :
      (g : Registry) (q : Registration) → IsValid g → IsValid (register bundle_digest policy g q).0
  unfolding register
  register-IsValid g q h = write-IsValid g q (admit bundle_digest policy g q) h
