-- ===== src/Ledger/Calls/Terminals.antt =====
-- The terminal events that _model_call_terminals returns, and the STARTED event before each.
use agent_loop_gate.Base.{
  true, false, none, some, List, [], ◌∷◌, ◌++◌, All, Occurs, ok, same, contains, keys, values,
  lookup, insert, filter, is_unique, lookup-insert, contains-keys-insert, string_eq, same_iff, ◌≡◌,
  refl, inl, inr, ◌⊎◌, arith, >>=-eq-ok, ok-injective, some_of, ◌∙◌, ap, sym, Bool-cases, option_eq,
  nat_eq,
}
use mathlib.Core.Path.{subst}
use agent_loop_gate.Schemas.{ArtifactId, Digest}
use agent_loop_gate.Runtime.Usage.{ModelCallUsageEvent, DigestPayload, started, attempt_state_eq}
use agent_loop_gate.Base.Int.{int_eq}
use agent_loop_gate.Ledger.Calls.{
  Lifecycle, LedgerFile, no_calls, is_started, is_terminal, follow_call, follow_calls,
  model_call_events, model_call_terminals, read_events, collect_terminals, same_identity,
}
use agent_loop_gate.Ledger.Calls.Steps.{follow_call-cases}
use agent_loop_gate.Ledger.Calls.Sets.{is_unique-cons}
use agent_loop_gate.Ledger.Calls.Balance.{terminal_ids, IsFresh, model_call_events-IsBalanced}

values-insert :
    (k : ArtifactId) (v : ModelCallUsageEvent) (d : List (ArtifactId × ModelCallUsageEvent))
    → contains k (keys d) ≡ false
    → values (insert k v d) ≡ values d ++ (v ∷ [])
values-insert k v [] h = refl
values-insert k v ((j, w) ∷ d) h = ground (arith, values-insert k v d)

append_assoc :
    (xs : List ModelCallUsageEvent) (y : ModelCallUsageEvent) (zs : List ModelCallUsageEvent)
    → (xs ++ (y ∷ [])) ++ zs ≡ xs ++ (y ∷ zs)
append_assoc [] y zs = refl
append_assoc (x ∷ xs) y zs = ap (λ l. x ∷ l) (append_assoc xs y zs)

-- A new terminal event goes to the end, and the others stay new.
IsFresh-after :
    (k : ArtifactId) (e : ModelCallUsageEvent) (found : List (ArtifactId × ModelCallUsageEvent))
    (is : List ArtifactId)
    → contains k is ≡ false
    → All (IsFresh (keys found)) is
    → All (IsFresh (keys (insert k e found))) is
IsFresh-after k e found [] n h = tt
IsFresh-after k e found (i ∷ is) n h = (
  ground (arith, contains-keys-insert i k e found, h.0, same_iff i k, same_iff k i),
  IsFresh-after k e found is (ground arith) h.1,
)

collect-skip :
    (found : List (ArtifactId × ModelCallUsageEvent)) (e : ModelCallUsageEvent)
    (es : List ModelCallUsageEvent)
    → is_started e ≡ true
    → collect_terminals found (e ∷ es) ≡ collect_terminals found es
unfolding collect_terminals
collect-skip found e es p = rw (p, collect_terminals)

collect-take :
    (found : List (ArtifactId × ModelCallUsageEvent)) (e : ModelCallUsageEvent)
    (es : List ModelCallUsageEvent)
    → is_started e ≡ false
    → IsFresh (keys found) e.fields.call_id
    → collect_terminals found (e ∷ es) ≡ collect_terminals (insert e.fields.call_id e found) es
unfolding collect_terminals
collect-take found e es p h = rw (p, h, collect_terminals)

append_nil : (xs : List ModelCallUsageEvent) → xs ++ [] ≡ xs
append_nil [] = refl
append_nil (x ∷ xs) = ap (λ l. x ∷ l) (append_nil xs)

collect_terminals-filter :
    (found : List (ArtifactId × ModelCallUsageEvent)) (es : List ModelCallUsageEvent)
    → All (IsFresh (keys found)) (terminal_ids es)
    → is_unique (terminal_ids es) ≡ true
    → (d : List (ArtifactId × ModelCallUsageEvent)) × (collect_terminals found es ≡ ok d)
      × (values d ≡ values found ++ filter is_terminal es)
unfolding collect_terminals
collect_terminals-filter found [] h u = (found, refl, sym (append_nil (values found)))
collect_terminals-filter found (e ∷ es) h u = elim (Bool-cases (is_started e)) [
  | inl p ↦
      let (d, collected, e') = collect_terminals-filter found es (rw p at h) (rw p at u) in
      (d, rw (collect-skip found e es p) collected, rw p e')
  | inr p ↦
      let all : All (IsFresh (keys found)) (e.fields.call_id ∷ terminal_ids es) = rw p at h in
      let (absent, unique) = is_unique-cons e.fields.call_id (terminal_ids es) (rw p at u) in
      let (d, collected, e') =
        collect_terminals-filter (insert e.fields.call_id e found) es
          (IsFresh-after e.fields.call_id e found (terminal_ids es) absent all.1) unique in
      (
        d,
        rw (collect-take found e es p all.0) collected,
        rw p (
            e'
            ∙ rw (values-insert e.fields.call_id e found all.0)
                (append_assoc (values found) e (filter is_terminal es))),
      )
]

module _ (canonical_digest : DigestPayload → Digest) where
  -- Where _model_call_events accepts a ledger, _model_call_terminals raises no error and returns the
  -- events that are not STARTED, in their order.
  pub model_call_terminals-filter :
      (file : LedgerFile) (events : List ModelCallUsageEvent)
      → model_call_events canonical_digest file ≡ ok events
      → model_call_terminals canonical_digest file ≡ ok (filter is_terminal events)
  unfolding model_call_terminals
  model_call_terminals-filter file events h =
      let (starts, (fresh, unique), answered) =
        model_call_events-IsBalanced canonical_digest file events h in
      let (d, collected, e) = collect_terminals-filter [] events fresh unique in
      rw (h, collected, e)

-- The STARTED event of a call, in the session, of the model and in the task attempt of a later one.
pub record IsStartOf (s t : ModelCallUsageEvent) : Type 0 where
  pub opens : s.fields.state ≡ started
  pub of_call : s.fields.call_id ≡ t.fields.call_id
  pub of_session : s.fields.session_id_hash ≡ t.fields.session_id_hash
  pub of_model : s.fields.model ≡ t.fields.model
  pub of_task : s.fields.task_id ≡ t.fields.task_id
  pub of_trial : s.fields.trial ≡ t.fields.trial
  pub of_seed : s.fields.seed ≡ t.fields.seed
  pub of_attempt : s.fields.task_attempt_index ≡ t.fields.task_attempt_index

same_identity-IsStartOf :
    (s t : ModelCallUsageEvent)
    → is_started s ≡ true
    → s.fields.call_id ≡ t.fields.call_id
    → same_identity s t ≡ true
    → IsStartOf s t
unfolding same_identity
same_identity-IsStartOf s t p q h = record {
  opens = (same_iff s.fields.state started).0 p;
  of_call = q;
  of_session = (same_iff s.fields.session_id_hash t.fields.session_id_hash).0 (ground (arith, h));
  of_model = (same_iff s.fields.model t.fields.model).0 (ground (arith, h));
  of_task = (same_iff s.fields.task_id t.fields.task_id).0 (ground (arith, h));
  of_trial = (same_iff s.fields.trial t.fields.trial).0 (ground (arith, h));
  of_seed = (same_iff s.fields.seed t.fields.seed).0 (ground (arith, h));
  of_attempt =
      (same_iff s.fields.task_attempt_index t.fields.task_attempt_index).0 (ground (arith, h));
}

-- A call that is open stands under its own id.
abbrev IsIndexed : Lifecycle → Type 0
IsIndexed st =
    (k : ArtifactId) (s : ModelCallUsageEvent)
    → lookup k st.opened ≡ some s
    → (is_started s ≡ true) × (s.fields.call_id ≡ k)

abbrev IsStartedBefore : Lifecycle → List ModelCallUsageEvent → ModelCallUsageEvent → Type 0
IsStartedBefore st before t =
    (s : ModelCallUsageEvent) × (Occurs s before ⊎ (lookup t.fields.call_id st.opened ≡ some s))
    × IsStartOf s t

opening-IsIndexed :
    (st : Lifecycle) (e : ModelCallUsageEvent)
    → IsIndexed st
    → is_started e ≡ true
    → IsIndexed (record st { opened = insert e.fields.call_id e st.opened })
opening-IsIndexed st e indexed p k s found = elim (Bool-cases (same k e.fields.call_id)) [
  | inl q ↦
      let new : e ≡ s = some_of (rw (lookup-insert e.fields.call_id k e st.opened, q) at found) in
      subst (λ (x : ModelCallUsageEvent). (is_started x ≡ true) × (x.fields.call_id ≡ k)) new
        (p, sym ((same_iff k e.fields.call_id).0 q))
  | inr q ↦ indexed k s (rw (lookup-insert e.fields.call_id k e st.opened, q) at found)
]

opening-before :
    (st : Lifecycle) (e t : ModelCallUsageEvent) (before : List ModelCallUsageEvent)
    → IsStartedBefore (record st { opened = insert e.fields.call_id e st.opened }) before t
    → IsStartedBefore st (e ∷ before) t
opening-before st e t before (s, inl o, start) = (s, inl (inr o), start)
opening-before st e t before (s, inr found, start) =
    elim (Bool-cases (same t.fields.call_id e.fields.call_id)) [
      | inl q ↦
          let new : e ≡ s =
            some_of
              (rw (lookup-insert e.fields.call_id t.fields.call_id e st.opened, q) at found) in
          (s, inl (inl (sym new)), start)
      | inr q ↦ (
        s,
        inr (rw (lookup-insert e.fields.call_id t.fields.call_id e st.opened, q) at found),
        start,
      )
    ]

closing-before :
    (st : Lifecycle) (e t : ModelCallUsageEvent) (before : List ModelCallUsageEvent)
    → IsStartedBefore (record st { closed = e.fields.call_id ∷ st.closed }) before t
    → IsStartedBefore st (e ∷ before) t
closing-before st e t before (s, inl o, start) = (s, inl (inr o), start)
closing-before st e t before (s, inr found, start) = (s, inr found, start)

follow_calls-IsStartedBefore :
    (st last : Lifecycle) (before after : List ModelCallUsageEvent) (t : ModelCallUsageEvent)
    → IsIndexed st
    → is_started t ≡ false
    → follow_calls st (before ++ (t ∷ after)) ≡ ok last
    → IsStartedBefore st before t
unfolding follow_calls
follow_calls-IsStartedBefore st last [] after t indexed p h =
    let (next, step, rest) = >>=-eq-ok (follow_call st t) _ h in
    elim (follow_call-cases st t next step) [
      | inl o ↦ absurd (cc (o.0, p))
      | inr c ↦
          let (initial, found, agree) = c.3 in
          (
            initial,
            inr found,
            same_identity-IsStartOf initial t (indexed _ _ found).0 (indexed _ _ found).1 agree,
          )
    ]
follow_calls-IsStartedBefore st last (e ∷ before) after t indexed p h =
    let (next, step, rest) = >>=-eq-ok (follow_call st e) _ h in
    elim (follow_call-cases st e next step) [
      | inl o ↦ opening-before st e t before (
          follow_calls-IsStartedBefore _ last before after t (opening-IsIndexed st e indexed o.0) p
            (rw (sym o.2) at rest))
      | inr c ↦ closing-before st e t before (
          follow_calls-IsStartedBefore (record st { closed = e.fields.call_id ∷ st.closed }) last
            before after t indexed p (rw (sym c.2) at rest))
    ]

-- In a ledger that _model_call_events accepts, every event that is not STARTED follows a STARTED
-- event of the same call, with the same session, model and task-attempt identity.
pub model_call_events-IsStartOf :
    (canonical_digest : DigestPayload → Digest) (file : LedgerFile)
    (before after : List ModelCallUsageEvent) (t : ModelCallUsageEvent)
    → model_call_events canonical_digest file ≡ ok (before ++ (t ∷ after))
    → is_started t ≡ false
    → (s : ModelCallUsageEvent) × Occurs s before × IsStartOf s t
unfolding model_call_events
model_call_events-IsStartOf canonical_digest none [] after t h p = absurd (cc (ok-injective h))
model_call_events-IsStartOf canonical_digest none (x ∷ before) after t h p =
    absurd (cc (ok-injective h))
model_call_events-IsStartOf canonical_digest (some lines) before after t h p =
    let (read, reads, rest) = >>=-eq-ok (read_events canonical_digest lines) _ h in
    let (last, follows, e) = >>=-eq-ok (follow_calls no_calls read) _ rest in
    let (s, place, start) =
      follow_calls-IsStartedBefore no_calls last before after t (λ k s found. cc found) p
        (rw (ok-injective e) at follows) in
    (s, elim place [ inl o ↦ o | inr found ↦ absurd (cc found) ], start)
