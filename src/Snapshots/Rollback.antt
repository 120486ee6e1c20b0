-- ===== src/Snapshots/Rollback.antt =====
-- What a rollback that returns leaves active.
use agent_loop_gate.Base.Sorting.{sorted, str_lt}
use agent_loop_gate.Base.{
  Result, err, List, true, false, if◌then◌else◌, suc, String, Bool, not, ◌||◌, Option, none, some,
  ok, is_some, same, same_of, lookup, length, string_eq, nat_eq, option_eq, same_iff, ◌≡◌, refl,
  sym, ap, some_of, ◌∙◌, inl, inr, arith, Bool-cases, >>=-eq-ok, raise_if-eq-ok, ok-injective,
}
use mathlib.Core.Path.{subst}
use agent_loop_gate.Schemas.{Digest}
use agent_loop_gate.Snapshots.Models.{
  SnapshotManifest, SnapshotActivation, PromotionApproval, ApprovalAction, approval_action_eq,
  to_rollback, Store, activation_action_eq, Files, Run, raises, writes, continue, and_then,
}
use agent_loop_gate.Snapshots.Manager.{
  files_of, last_of, last_activation, verify, require_live_matches, materialize_live,
  append_activation, write_journal, activate_locked, activate_transaction, recover_activation,
  active_snapshot, repeat_rollback, rollback_event, new_rollback, approved_rollback, rollback_to,
  unlink_journal, write_files, unlink_files, undesired, checked_live,
}
use agent_loop_gate.Snapshots.Live.{verify-IsIntact}
use agent_loop_gate.Snapshots.Stages.{IsLive, last_of-append}

continue-ok :
    (earlier : List Store) (o : Result String Store) (f : Store → Run) {out : Store}
    → (continue earlier o f).outcome ≡ ok out
    → (st : Store) × (o ≡ ok st) × ((f st).outcome ≡ ok out)
continue-ok earlier (err e) f h = cc h
continue-ok earlier (ok st) f h = (st, refl, h)

-- A run that returns returned from its first statement.
and_then-ok :
    (r : Run) (f : Store → Run) {out : Store}
    → (and_then r f).outcome ≡ ok out
    → (st : Store) × (r.outcome ≡ ok st) × ((f st).outcome ≡ ok out)
and_then-ok r f h = continue-ok r.trace r.outcome f h

not_raised :
    (b : Bool) (e : String) (r : Run) {out : Store}
    → (if b then raises e else r).outcome ≡ ok out
    → r.outcome ≡ ok out
not_raised true e r h = cc h
not_raised false e r h = h

module _ (is_safe_id : String → Bool) (file_digest : String → Digest)
    (parents : String → List String) (torn : String → Files → Files) where
  checked_live-ok :
      (st after : Store) (o : Result String (Unit {0}))
      → (checked_live is_safe_id file_digest parents torn st o).outcome ≡ ok after
      → (o ≡ ok tt) × (st ≡ after)
  checked_live-ok st after (ok u) h = (refl, ok-injective h)
  checked_live-ok st after (err e) h = cc h

  materialize_live-IsLive :
      (st after : Store) (m : SnapshotManifest)
      → (materialize_live is_safe_id file_digest parents torn st m).outcome ≡ ok after
      → IsLive is_safe_id file_digest parents torn m after
  unfolding materialize_live
  materialize_live-IsLive st after m h =
      let gone = sorted str_lt (undesired is_safe_id file_digest parents torn m st.live) in
      let (emptied, e, h1) =
        and_then-ok (unlink_files is_safe_id file_digest parents torn st gone) _ h in
      let (written, f, h2) =
        and_then-ok
          (write_files is_safe_id file_digest parents torn
            (files_of (lookup m.snapshot_id st.snapshots)) emptied m.harness_files)
          _ h1 in
      let (good, last) =
        checked_live-ok written after
          (require_live_matches is_safe_id file_digest parents torn written.live m) h2 in
      subst (IsLive is_safe_id file_digest parents torn m) last good

  append_activation-last :
      (st after : Store) (a : SnapshotActivation)
      → (append_activation is_safe_id file_digest parents torn st a).outcome ≡ ok after
      → (last_of after.activations ≡ some a) × (after.live ≡ st.live)
  unfolding append_activation
  append_activation-last st after a h =
      let h1 = not_raised (not (same a.ordinal (suc (length st.activations)))) _ _ h in
      subst (λ (x : Store). (last_of x.activations ≡ some a) × (x.live ≡ st.live)) (ok-injective h1)
        (last_of-append st.activations a, refl)

  -- The active snapshot of a store: its last activation, and what is live.
  abbrev pub IsActive : SnapshotManifest → SnapshotActivation → Store → Type 0
  IsActive m a st =
      (last_of st.activations ≡ some a)
      × (a.snapshot_id ≡ m.snapshot_id)
      × (a.action ≡ to_rollback)
      × IsLive is_safe_id file_digest parents torn m st

  activate_locked-last :
      (st after : Store) (target previous : SnapshotManifest) (a : SnapshotActivation)
      → (activate_locked is_safe_id file_digest parents torn st target previous a).outcome
        ≡ ok after
      → (last_of after.activations ≡ some a)
        × IsLive is_safe_id file_digest parents torn target after
  unfolding activate_locked
  activate_locked-last st after target previous a h =
      let start = write_journal is_safe_id file_digest parents torn st target previous a in
      let h1 = not_raised (is_some st.journal) "another activation is pending" _ h in
      let close = λ (x : Store). writes (unlink_journal x) in
      let append =
        λ (x : Store). and_then (append_activation is_safe_id file_digest parents torn x a) close in
      let move = λ (x : Store).
        and_then (materialize_live is_safe_id file_digest parents torn x target) append in
      let (pending, d, h2) = and_then-ok (writes start) move h1 in
      let (moved, e, h3) =
        and_then-ok (materialize_live is_safe_id file_digest parents torn pending target) append
          h2 in
      let (added, f, h4) =
        and_then-ok (append_activation is_safe_id file_digest parents torn moved a) close h3 in
      let (is_last, kept) = append_activation-last moved added a f in
      let is_live = materialize_live-IsLive pending moved target e in
      subst
        (λ (x : Store).
          (last_of x.activations ≡ some a) × IsLive is_safe_id file_digest parents torn target x)
        (ok-injective h4)
        (
          is_last,
          subst
              (λ (l : Files).
                require_live_matches is_safe_id file_digest parents torn l target ≡ ok tt)
              (sym kept) is_live,
        )

  activate_transaction-last :
      (st after : Store) (target previous : SnapshotManifest) (a : SnapshotActivation)
      → activate_transaction is_safe_id file_digest parents torn st target previous a ≡ ok after
      → (last_of after.activations ≡ some a)
        × IsLive is_safe_id file_digest parents torn target after
  unfolding activate_transaction
  activate_transaction-last st after target previous a h =
      let (last, e, h1) = >>=-eq-ok (last_activation (last_of st.activations)) _ h in
      let (changed, h2) =
        raise_if-eq-ok
          (not (same last.snapshot_id previous.snapshot_id)
            || not (same a.ordinal (suc (length st.activations))))
          _ _ h1 in
      let (u, good, h3) =
        >>=-eq-ok (require_live_matches is_safe_id file_digest parents torn st.live previous) _
          h2 in
      activate_locked-last st after target previous a h3

  new_rollback-IsActive :
      (st : Store) (target active : SnapshotManifest) (digest : Digest)
      (approval : PromotionApproval) (after : Store) (a : SnapshotActivation)
      → new_rollback is_safe_id file_digest parents torn st target active digest approval
        ≡ ok (after, a)
      → IsActive target a after
  unfolding new_rollback
  new_rollback-IsActive st target active digest approval after a h =
      let (parent, h1) =
        raise_if-eq-ok (not (same active.parent_snapshot_id (some target.snapshot_id))) _ _ h in
      let (u, good, h2) =
        >>=-eq-ok (require_live_matches is_safe_id file_digest parents torn st.live active) _ h1 in
      let event =
        rollback_event is_safe_id file_digest parents torn st target active digest approval in
      let (done, e, h3) =
        >>=-eq-ok (activate_transaction is_safe_id file_digest parents torn st target active event)
          _ h2 in
      let (is_last, is_live) = activate_transaction-last st done target active event e in
      subst (λ (x : Store × SnapshotActivation). IsActive target x.1 x.0) (ok-injective h3)
        (is_last, refl, refl, is_live)

  repeat_rollback-IsActive :
      (st : Store) (target : SnapshotManifest) (digest : Digest) (previous : SnapshotActivation)
      (after : Store) (a : SnapshotActivation)
      → last_of st.activations ≡ some previous
      → previous.snapshot_id ≡ target.snapshot_id
      → repeat_rollback is_safe_id file_digest parents torn st target digest previous
        ≡ ok (after, a)
      → IsActive target a after
  unfolding repeat_rollback
  repeat_rollback-IsActive st target digest previous after a is_last names h =
      let (other, h1) =
        raise_if-eq-ok
          (not (same previous.action to_rollback)
            || not (same previous.approval_digest (some digest)))
          _ _ h in
      let (u, good, h2) =
        >>=-eq-ok (require_live_matches is_safe_id file_digest parents torn st.live target) _ h1 in
      subst (λ (x : Store × SnapshotActivation). IsActive target x.1 x.0) (ok-injective h2)
        (is_last, names, same_of previous.action to_rollback (ground (arith, other)), good)

  last_activation-some :
      (o : Option SnapshotActivation) (a : SnapshotActivation)
      → last_activation o ≡ ok a
      → o ≡ some a
  unfolding last_activation
  last_activation-some none a h = cc h
  last_activation-some (some b) a h = ap (λ x. some x) (ok-injective h)

  active_snapshot-last :
      (st found : Store) (active : SnapshotManifest)
      → active_snapshot is_safe_id file_digest parents torn st ≡ ok (found, active)
      → (last : SnapshotActivation) × (last_of found.activations ≡ some last)
        × (active.snapshot_id ≡ last.snapshot_id)
  unfolding active_snapshot
  active_snapshot-last st found active h =
      let (recovered, e, h1) =
        >>=-eq-ok (recover_activation is_safe_id file_digest parents torn st) _ h in
      let (last, f, h2) = >>=-eq-ok (last_activation (last_of recovered.activations)) _ h1 in
      let (m, g, h3) =
        >>=-eq-ok (verify is_safe_id file_digest parents torn recovered last.snapshot_id) _ h2 in
      subst
        (λ (x : Store × SnapshotManifest).
          (l : SnapshotActivation) × (last_of x.0.activations ≡ some l)
          × (x.1.snapshot_id ≡ l.snapshot_id))
        (ok-injective h3)
        (
          last,
          last_activation-some (last_of recovered.activations) last f,
          (verify-IsIntact is_safe_id file_digest parents torn recovered last.snapshot_id m g).0,
        )

  module _ (canonical_digest : PromotionApproval → Digest) where
    approved_rollback-IsActive :
        (st : Store) (id : String) (target : SnapshotManifest) (approval : Option PromotionApproval)
        (after : Store) (a : SnapshotActivation)
        → approved_rollback is_safe_id file_digest parents torn canonical_digest st id target
            approval
          ≡ ok (after, a)
        → IsActive target a after
          × ((p : PromotionApproval) × (approval ≡ some p)
              × (p.action ≡ ApprovalAction.rollback)
              × (p.target_snapshot_id ≡ id))
    unfolding approved_rollback
    approved_rollback-IsActive st id target none after a h = cc h
    approved_rollback-IsActive st id target (some p) after a h =
        let (asked, h1) =
          raise_if-eq-ok
            (not (same p.action ApprovalAction.rollback) || not (same p.target_snapshot_id id)) _ _
            h in
        let (found, e, h2) =
          >>=-eq-ok (active_snapshot is_safe_id file_digest parents torn st) _ h1 in
        let (previous, f, h3) = >>=-eq-ok (last_activation (last_of found.0.activations)) _ h2 in
        let (last, is_last, names) = active_snapshot-last st found.0 found.1 e in
        let known = last_activation-some (last_of found.0.activations) previous f in
        let same_last : last ≡ previous = some_of (sym is_last ∙ known) in
        (
          elim (Bool-cases (same found.1.snapshot_id target.snapshot_id)) [
            | inl q ↦
                repeat_rollback-IsActive found.0 target (canonical_digest p) previous after a known
                  (ap (λ (x : SnapshotActivation). x.snapshot_id) (sym same_last)
                    ∙ sym names
                    ∙ (same_iff found.1.snapshot_id target.snapshot_id).0 q)
                  (rw q at h3)
            | inr q ↦
                new_rollback-IsActive found.0 target found.1 (canonical_digest p) p after a
                  (rw q at h3)
          ],
          (
            p,
            refl,
            same_of p.action ApprovalAction.rollback (ground (arith, asked)),
            same_of p.target_snapshot_id id (ground (arith, asked)),
          ),
        )

    -- A rollback that returns had an approval of a rollback to that snapshot, and leaves it active:
    -- the last activation is the one that it returns, a rollback to the snapshot, and the live
    -- harness matches the snapshot's verified manifest.
    pub rollback_to-IsActive :
        (st after : Store) (id : String) (approval : Option PromotionApproval)
        (a : SnapshotActivation)
        → rollback_to is_safe_id file_digest parents torn canonical_digest st id approval
          ≡ ok (after, a)
        → (target : SnapshotManifest) × (target.snapshot_id ≡ id)
          × (verify is_safe_id file_digest parents torn st id ≡ ok target)
          × IsActive target a after
          × ((p : PromotionApproval) × (approval ≡ some p)
              × (p.action ≡ ApprovalAction.rollback)
              × (p.target_snapshot_id ≡ id))
    unfolding rollback_to
    rollback_to-IsActive st after id approval a h =
        let (target, verified, h1) =
          >>=-eq-ok (verify is_safe_id file_digest parents torn st id) _ h in
        let (active, approved) = approved_rollback-IsActive st id target approval after a h1 in
        (
          target,
          (verify-IsIntact is_safe_id file_digest parents torn st id target verified).0,
          verified,
          active,
          approved,
        )
