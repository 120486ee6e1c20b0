-- ===== src/Ledger/Calls/Balance.antt =====
-- What a ledger that _model_call_events accepts holds: the ids of its events.
use agent_loop_gate.Base.{
  ℕ, ◌+◌, Bool, true, false, ◌||◌, none, some, List, [], ◌∷◌, All, All-mono, ok, same, contains,
  keys, insert, filter, count, length, is_unique, all-All, contains-keys-insert, keys-lookup,
  string_eq, same_iff, ◌≡◌, refl, inl, inr, arith, >>=-eq-ok, ok-injective, sym,
}
use mathlib.Core.Path.{subst}
use agent_loop_gate.Schemas.{ArtifactId, Digest}
use agent_loop_gate.Runtime.Usage.{ModelCallUsageEvent, DigestPayload}
use agent_loop_gate.Ledger.Calls.{
  Lifecycle, LedgerFile, no_calls, is_started, is_terminal, follow_call, follow_calls, call_ids,
  difference, model_call_events, unresolved_model_calls, read_events,
}
use agent_loop_gate.Ledger.Calls.Steps.{follow_call-cases, IsOpening, IsClosing}
use agent_loop_gate.Ledger.Calls.Sets.{contains-All, distinct-is_unique, length-difference}

abbrev pub started_ids : List ModelCallUsageEvent → List ArtifactId
started_ids es = call_ids (filter is_started es)

abbrev pub terminal_ids : List ModelCallUsageEvent → List ArtifactId
terminal_ids es = call_ids (filter is_terminal es)

abbrev pub IsFresh : List ArtifactId → ArtifactId → Type 0
IsFresh taken i = contains i taken ≡ false

abbrev pub IsAnswered : Lifecycle → List ModelCallUsageEvent → ArtifactId → Type 0
IsAnswered st es i = (contains i (keys st.opened) || contains i (started_ids es)) ≡ true

-- The events that follow a state start and end each call once, and end no call that is not started.
abbrev pub IsBalanced : Lifecycle → List ModelCallUsageEvent → Type 0
IsBalanced st es =
    (All (IsFresh (keys st.opened)) (started_ids es) × (is_unique (started_ids es) ≡ true))
    × (All (IsFresh st.closed) (terminal_ids es) × (is_unique (terminal_ids es) ≡ true))
    × All (IsAnswered st es) (terminal_ids es)

IsFresh-insert :
    (i k : ArtifactId) (e : ModelCallUsageEvent) (d : List (ArtifactId × ModelCallUsageEvent))
    → IsFresh (keys (insert k e d)) i
    → (same i k ≡ false) × IsFresh (keys d) i
IsFresh-insert i k e d h = (
  ground (arith, contains-keys-insert i k e d, h),
  ground (arith, contains-keys-insert i k e d, h),
)

same_self : (k : ArtifactId) → same k k ≡ false → ⊥
same_self k h = cc (h, (same_iff k k).1 refl)

opening-IsBalanced :
    (st : Lifecycle) (e : ModelCallUsageEvent) (next : Lifecycle) (es : List ModelCallUsageEvent)
    → IsOpening st e next
    → IsBalanced next es
    → IsBalanced st (e ∷ es)
opening-IsBalanced st e next es h b =
    let k = e.fields.call_id in
    let b' = subst (λ (n : Lifecycle). IsBalanced n es) (sym h.2) b in
    let ((fresh, unique), ends, answered) = b' in
    rw h.0 (
      (
        (h.1, All-mono _ _ (started_ids es) (λ i f. (IsFresh-insert i k e st.opened f).1) fresh),
        ground (
          arith,
          unique,
          contains-All _ k (started_ids es) fresh
              (λ f. same_self k (IsFresh-insert k k e st.opened f).0),
        ),
      ),
      ends,
      All-mono _ _ (terminal_ids es)
          (λ i f. ground (arith, f, contains-keys-insert i k e st.opened)) answered,
    )

closing-IsBalanced :
    (st : Lifecycle) (e : ModelCallUsageEvent) (next : Lifecycle) (es : List ModelCallUsageEvent)
    → IsClosing st e next
    → IsBalanced next es
    → IsBalanced st (e ∷ es)
closing-IsBalanced st e next es h b =
    let k = e.fields.call_id in
    let b' = subst (λ (n : Lifecycle). IsBalanced n es) (sym h.2) b in
    let (starts, (fresh, unique), answered) = b' in
    let (initial, found, agree) = h.3 in
    rw h.0 (
      starts,
      (
        (h.1, All-mono _ _ (terminal_ids es) (λ i f. (ground (arith, f))) fresh),
        ground (
          arith,
          unique,
          contains-All _ k (terminal_ids es) fresh (λ f. ground (arith, f, (same_iff k k).1 refl)),
        ),
      ),
      (
        ground (arith, keys-lookup k st.opened initial found),
        All-mono _ _ (terminal_ids es) (λ i f. rw h.0 f) answered,
      ),
    )

pub follow_calls-IsBalanced :
    (st last : Lifecycle) (es : List ModelCallUsageEvent)
    → follow_calls st es ≡ ok last
    → IsBalanced st es
unfolding follow_calls
follow_calls-IsBalanced st last [] h = ((tt, refl), (tt, refl), tt)
follow_calls-IsBalanced st last (e ∷ es) h =
    let (next, step, rest) = >>=-eq-ok (follow_call st e) _ h in
    let ih = follow_calls-IsBalanced next last es rest in
    elim (follow_call-cases st e next step) [
      | inl p ↦ opening-IsBalanced st e next es p ih
      | inr p ↦ closing-IsBalanced st e next es p ih
    ]

filter-length :
    (p : ModelCallUsageEvent → Bool) (es : List ModelCallUsageEvent)
    → length (call_ids (filter p es)) ≡ count p es
filter-length p [] = refl
filter-length p (e ∷ es) = ground (arith, filter-length p es)

module _ (canonical_digest : DigestPayload → Digest) where
  -- The events of a ledger that is read balance.
  pub model_call_events-IsBalanced :
      (file : LedgerFile) (events : List ModelCallUsageEvent)
      → model_call_events canonical_digest file ≡ ok events
      → IsBalanced no_calls events
  unfolding model_call_events
  model_call_events-IsBalanced none events h =
      subst (λ (es : List ModelCallUsageEvent). IsBalanced no_calls es) (ok-injective h)
        ((tt, refl), (tt, refl), tt)
  model_call_events-IsBalanced (some lines) events h =
      let (read, reads, rest) = >>=-eq-ok (read_events canonical_digest lines) _ h in
      let (last, follows, e) = >>=-eq-ok (follow_calls no_calls read) _ rest in
      subst (λ (es : List ModelCallUsageEvent). IsBalanced no_calls es) (ok-injective e)
        (follow_calls-IsBalanced no_calls last read follows)

  -- Where _model_call_events accepts a ledger, _unresolved_model_calls raises no error and returns
  -- the number of calls left open: with the terminal events it makes up the STARTED events.
  pub unresolved_model_calls-balance :
      (file : LedgerFile) (events : List ModelCallUsageEvent)
      → model_call_events canonical_digest file ≡ ok events
      → (n : ℕ) × (unresolved_model_calls canonical_digest file ≡ ok n)
        × (n + count is_terminal events ≡ count is_started events)
  unfolding unresolved_model_calls
  unresolved_model_calls-balance file events h =
      let ((fresh, opens), (new, ends), answered) = model_call_events-IsBalanced file events h in
      let sub = all-All (λ i. contains i (started_ids events)) (terminal_ids events) answered in
      (
        length (difference (started_ids events) (terminal_ids events)),
        rw (
          h,
          distinct-is_unique (started_ids events) opens,
          distinct-is_unique (terminal_ids events) ends,
          sub,
        ),
        omega (
          arith,
          length-difference (started_ids events) (terminal_ids events) opens ends sub,
          filter-length is_started events,
          filter-length is_terminal events,
        ),
      )
