-- ===== src/Ledger/Attempts/Batches.antt =====
-- Batches that the ledger of attempts knows as completed.
use agent_loop_gate.Base.{
  ℕ, Bool, true, false, ◌&&◌, some, List, [], ◌∷◌, ◌++◌, ok, same, contains, insert, keys, values,
  any, Occurs, string_eq, option_eq, same_iff, if◌then◌else◌, ◌≡◌, refl, sym, ap, inl, inr, arith,
  >>=-eq-ok, raise_if-eq-ok, ok-injective,
}
use mathlib.Core.Path.{subst}
use agent_loop_gate.Base.Sorting.{sorted, Occurs-sorted}
use agent_loop_gate.Schemas.{Digest, ArtifactId, UtcDateTime}
use agent_loop_gate.Runtime.Usage.{completed, attempt_state_eq}
use agent_loop_gate.Ledger.Attempts.Models.{
  AttemptFields, ExperimentAttemptEvent, EventPath, event_path_eq, AttemptLedger, AttemptEnd,
  check_attempt, complete_fields,
}
use agent_loop_gate.Ledger.Attempts.Events.{
  comes_before, make_event, verify_event, append_event, record_event, complete, batch_events,
  events_for_batch, has_completed_batch,
}

any-Occurs :
    (p : ExperimentAttemptEvent → Bool) (e : ExperimentAttemptEvent)
    (es : List ExperimentAttemptEvent)
    → Occurs e es
    → p e ≡ true
    → any p es ≡ true
any-Occurs p e [] o h = elim o [ ]
any-Occurs p e (x ∷ es) (inl q) h = rw (sym q, h) refl
any-Occurs p e (x ∷ es) (inr o) h = ground (arith, any-Occurs p e es o h)

Occurs-if :
    (b : Bool) (e x : ExperimentAttemptEvent) (es : List ExperimentAttemptEvent)
    → Occurs e es
    → Occurs e (if b then x ∷ es else es)
Occurs-if true e x es o = inr o
Occurs-if false e x es o = o

-- A new file goes to the end.
values-insert :
    (k : EventPath) (e : ExperimentAttemptEvent) (d : AttemptLedger)
    → contains k (keys d) ≡ false
    → values (insert k e d) ≡ values d ++ (e ∷ [])
values-insert k e [] h = refl
values-insert k e ((j, x) ∷ d) h = ground (arith, values-insert k e d)

module _ (canonical_digest : AttemptFields → Digest) where
  -- The events of a ledger are all verified.
  abbrev IsReadable : ExperimentAttemptEvent → Type 0
  IsReadable e = (check_attempt e.fields ≡ ok tt) × (verify_event canonical_digest e ≡ ok tt)

  batch_events-append :
      (batch_id : ArtifactId) (es found : List ExperimentAttemptEvent) (e : ExperimentAttemptEvent)
      → batch_events canonical_digest batch_id es ≡ ok found
      → IsReadable e
      → e.fields.batch_id ≡ some batch_id
      → (all : List ExperimentAttemptEvent) × (batch_events canonical_digest batch_id
            (es ++ (e ∷ []))
          ≡ ok all)
        × Occurs e all
  unfolding batch_events
  batch_events-append batch_id [] found e h readable b = (
    e ∷ [],
    rw (readable.0, readable.1, (same_iff e.fields.batch_id (some batch_id)).1 b) refl,
    inl refl,
  )
  batch_events-append batch_id (x ∷ es) found e h readable b =
      let (u, valid, h1) = >>=-eq-ok (check_attempt x.fields) _ h in
      let (v, verified, h2) = >>=-eq-ok (verify_event canonical_digest x) _ h1 in
      let (others, reads, h3) = >>=-eq-ok (batch_events canonical_digest batch_id es) _ h2 in
      let (all, f, o) = batch_events-append batch_id es others e reads readable b in
      let mine = same x.fields.batch_id (some batch_id) in
      (if mine then x ∷ all else all, rw (valid, verified, f) refl, Occurs-if mine e x all o)

  -- What a call that recorded an event did.
  record_event-cases :
      (ledger next : AttemptLedger) (f : AttemptFields) (e : ExperimentAttemptEvent)
      → record_event canonical_digest ledger f ≡ ok (next, e)
      → IsReadable e × (e.fields ≡ f) × (values next ≡ values ledger ++ (e ∷ []))
  unfolding record_event make_event append_event
  record_event-cases ledger next f e h =
      let (made, m, h1) = >>=-eq-ok (make_event canonical_digest f) _ h in
      let (added, a, h2) = >>=-eq-ok (append_event canonical_digest ledger made) _ h1 in
      let (u, valid, m1) = >>=-eq-ok (check_attempt f) _ m in
      let same_fields : made.fields ≡ f =
        ap (λ (x : ExperimentAttemptEvent). x.fields) (sym (ok-injective m1)) in
      let (v, verified, a1) = >>=-eq-ok (verify_event canonical_digest made) _ a in
      let (fresh, a2) =
        raise_if-eq-ok (contains (made.fields.attempt_id, made.event_id) (keys ledger)) _ _ a1 in
      subst
        (λ (x : AttemptLedger × ExperimentAttemptEvent).
          IsReadable x.1 × (x.1.fields ≡ f) × (values x.0 ≡ values ledger ++ (x.1 ∷ [])))
        (ok-injective h2)
        (
          (rw same_fields valid, verified),
          same_fields,
          rw (sym (ok-injective a2))
              (values-insert (made.fields.attempt_id, made.event_id) made ledger fresh),
        )

  -- A batch whose attempt complete ends without an error is a completed batch of its specification,
  -- where the events of the ledger before it could be read.
  pub has_completed_batch-complete :
      (ledger next : AttemptLedger) (handle e : ExperimentAttemptEvent) (now : UtcDateTime) (ms : ℕ)
      (a : AttemptEnd) (batch_id : ArtifactId) (spec_digest : Digest)
      (before : List ExperimentAttemptEvent)
      → events_for_batch canonical_digest ledger batch_id ≡ ok before
      → handle.fields.batch_id ≡ some batch_id
      → handle.fields.spec_digest ≡ some spec_digest
      → complete canonical_digest ledger handle now ms a ≡ ok (next, e)
      → has_completed_batch canonical_digest next batch_id spec_digest ≡ ok true
  unfolding has_completed_batch events_for_batch complete
  has_completed_batch-complete ledger next handle e now ms a batch_id spec_digest before h b d
        done =
      let (found, reads, h1) =
        >>=-eq-ok (batch_events canonical_digest batch_id (values ledger)) _ h in
      let (readable, kept, grown) =
        record_event-cases ledger next (complete_fields handle.fields now ms a) e done in
      let in_batch : e.fields.batch_id ≡ some batch_id = rw kept b in
      let (all, f, o) =
        batch_events-append batch_id (values ledger) found e reads readable in_batch in
      let is_done = λ (x : ExperimentAttemptEvent).
        same x.fields.state completed && same x.fields.spec_digest (some spec_digest) in
      let good : is_done e ≡ true =
        rw (kept, (same_iff handle.fields.spec_digest (some spec_digest)).1 d) refl in
      rw
        (
          grown,
          f,
          any-Occurs is_done e (sorted comes_before all) ((Occurs-sorted comes_before e all).1 o)
              good,
        )
        refl
