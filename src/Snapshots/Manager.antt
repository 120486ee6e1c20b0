-- ===== src/Snapshots/Manager.antt =====
-- The operations of SnapshotManager that verify, activate, recover and roll back.
use agent_loop_gate.Base.Sorting.{sorted, str_lt}
use agent_loop_gate.Base.{
  any, true, false, suc, String, Bool, not, ◌&&◌, ◌||◌, Option, none, some, List, [], ◌∷◌, ◌++◌,
  Result, ok, err, raise_if, ◌>>◌, ◌>>=◌, same, contains, lookup, insert, keys, filter, all, length,
  same_set, is_subset, is_some, string_eq, nat_eq, option_eq, if◌then◌else◌,
}
use agent_loop_gate.Schemas.{Digest, ArtifactId}
use agent_loop_gate.Snapshots.Models.{
  ApprovalAction, approval_action_eq, activation_action_eq, Files, Journal, PromotionApproval,
  SnapshotActivation, SnapshotManifest, Store, StoredSnapshot, to_rollback, Run, raises, returns,
  writes, and_then,
}

abbrev pub same_activation : SnapshotActivation → SnapshotActivation → Bool
same_activation a b =
    same a.ordinal b.ordinal
    && same a.action b.action
    && same a.snapshot_id b.snapshot_id
    && same a.previous_snapshot_id b.previous_snapshot_id
    && same a.decision_id b.decision_id
    && same a.approval_digest b.approval_digest
    && same a.actor b.actor
    && same a.activated_at b.activated_at

-- `d == e`
abbrev pub same_dict : List (String × Digest) → List (String × Digest) → Bool
same_dict d e = is_subset (keys d) (keys e) && all (λ x. same (lookup x.0 d) (some x.1)) e

-- `_last_activation`, on the list of activations.
abbrev pub last_of : List SnapshotActivation → Option SnapshotActivation
last_of [] = none
last_of (a ∷ []) = some a
last_of (a ∷ b ∷ rest) = last_of (b ∷ rest)

unfoldable pub last_activation : Option SnapshotActivation → Result String SnapshotActivation
last_activation none = err "no snapshot activation is registered"
last_activation (some a) = ok a

abbrev pub files_of : Option StoredSnapshot → Files
files_of none = []
files_of (some s) = s.files

abbrev pub unlink_journal : Store → Store
unlink_journal st = record st { journal = none }

module _ (is_safe_id : String → Bool) (file_digest : String → Digest)
    (parents : String → List String) (torn : String → Files → Files) where
  -- `_tree_digests`
  abbrev pub tree_digests : Files → List (String × Digest)
  tree_digests [] = []
  tree_digests ((path, content) ∷ rest) = (path, file_digest content) ∷ tree_digests rest

  unfoldable pub verify_stored : ArtifactId → Option StoredSnapshot → Result String SnapshotManifest
  verify_stored id none = err "snapshot is unavailable"
  verify_stored id (some s) = do
    raise_if (not (same s.manifest.snapshot_id id)) "snapshot manifest identity mismatch"
    raise_if (not (same_dict (tree_digests s.files) s.manifest.harness_files))
        "snapshot harness digest mismatch"
    ok s.manifest

  -- `verify`
  unfoldable pub verify : Store → ArtifactId → Result String SnapshotManifest
  unfolding verify_stored
  verify st id = do
    raise_if (not (is_safe_id id)) "unsafe snapshot id"
    verify_stored id (lookup id st.snapshots)

  abbrev pub digest_at : Files → String → Option Digest
  digest_at live path = lookup path (tree_digests live)

  -- `_require_live_matches`
  unfoldable pub require_live_matches : Files → SnapshotManifest → Result String (Unit {0})
  require_live_matches live m = do
    raise_if (not (same_set (keys live) (keys m.harness_files))) "live harness file set has drifted"
    raise_if (not (all (λ x. same (digest_at live x.0) (some x.1)) m.harness_files))
        "live harness drift detected"
    ok tt

  -- The first loop of _materialize_live, which unlinks.
  unfoldable pub unlink_files : Store → List String → Run
  unlink_files st [] = returns st
  unlink_files st (path ∷ rest) =
      and_then (writes (record st { live = filter (λ x. not (same x.0 path)) st.live }))
        (λ next. unlink_files next rest)

  -- `destination.parent.mkdir(parents=True, exist_ok=True)`
  abbrev pub make_parents : Store → String → Run
  make_parents st path =
      if any (λ d. contains d (keys st.live)) (parents path)
      then raises "FileExistsError"
      else writes (record st { directories = parents path ++ st.directories })

  abbrev pub check_written : Store → Bool → Run
  check_written st true = returns st
  check_written st false = raises "live snapshot write failed"

  -- The temporary file is written and replaces the destination, which is not a directory.
  abbrev pub replace_file : Store → String → Digest → Option String → Run
  replace_file st path expected none = raises "OSError"
  replace_file st path expected (some content) =
      and_then (writes (record st { live = torn path st.live })) (λ half.
        if contains path st.directories
        then raises "IsADirectoryError"
        else and_then (writes (record st { live = insert path content st.live }))
            (λ next. check_written next (same (file_digest content) expected)))

  -- The second loop of _materialize_live.
  unfoldable pub write_files : Files → Store → List (String × Digest) → Run
  write_files source st [] = returns st
  write_files source st ((path, expected) ∷ rest) = and_then (make_parents st path) (λ made.
      and_then (replace_file made path expected (lookup path source))
        (λ next. write_files source next rest))

  -- `existing - desired`
  abbrev pub undesired : SnapshotManifest → Files → List String
  undesired m live = filter (λ path. not (contains path (keys m.harness_files))) (keys live)

  abbrev pub checked_live : Store → Result String (Unit {0}) → Run
  checked_live st (ok u) = returns st
  checked_live st (err e) = raises e

  -- `_materialize_live`
  unfoldable pub materialize_live : Store → SnapshotManifest → Run
  unfolding unlink_files write_files require_live_matches sorted
  materialize_live st m =
      and_then (unlink_files st (sorted str_lt (undesired m st.live))) (λ emptied.
        and_then
          (write_files (files_of (lookup m.snapshot_id st.snapshots)) emptied m.harness_files)
          (λ written. checked_live written (require_live_matches written.live m)))

  -- `_append_activation`
  unfoldable pub append_activation : Store → SnapshotActivation → Run
  append_activation st a =
      if not (same a.ordinal (suc (length st.activations)))
      then raises "activation ordinal is not append-only"
      else writes (record st { activations = st.activations ++ (a ∷ []) })

  abbrev pub write_journal :
      Store → SnapshotManifest → SnapshotManifest → SnapshotActivation → Store
  write_journal st target previous a = record st {
    journal =
        some
          (record { previous = previous.snapshot_id; target = target.snapshot_id; activation = a });
  }

  -- `_activate_locked`
  unfoldable pub activate_locked :
      Store → SnapshotManifest → SnapshotManifest → SnapshotActivation → Run
  unfolding materialize_live append_activation
  activate_locked st target previous a =
      if is_some st.journal
      then raises "another activation is pending"
      else and_then (writes (write_journal st target previous a)) (λ pending.
        and_then (materialize_live pending target) (λ moved.
          and_then (append_activation moved a) (λ appended. writes (unlink_journal appended))))

  -- `_activate_transaction`
  unfoldable pub activate_transaction :
      Store → SnapshotManifest → SnapshotManifest → SnapshotActivation → Result String Store
  unfolding activate_locked last_activation require_live_matches
  activate_transaction st target previous a = do
    last ← last_activation (last_of st.activations)
    raise_if
        (not (same last.snapshot_id previous.snapshot_id)
          || not (same a.ordinal (suc (length st.activations))))
        "active snapshot changed during activation"
    require_live_matches st.live previous
    (activate_locked st target previous a).outcome

  unfoldable pub choose_restore :
      Store
      → SnapshotActivation
      → SnapshotManifest
      → SnapshotManifest
      → Option SnapshotActivation
      → Result String SnapshotManifest
  choose_restore st event previous target none = err "activation history missing"
  choose_restore st event previous target (some last) =
      if same_activation last event
      then ok target
      else if same last.snapshot_id previous.snapshot_id
          && same event.ordinal (suc (length st.activations))
      then ok previous
      else err "activation journal conflicts with history"

  -- The `try` block of _recover_activation_locked.
  unfoldable pub restore_journal : Store → Journal → Result String Store
  unfolding verify choose_restore materialize_live
  restore_journal st j = do
    previous ← verify st j.previous
    target ← verify st j.target
    raise_if
        (not (same j.activation.snapshot_id target.snapshot_id)
          || not (same j.activation.previous_snapshot_id (some previous.snapshot_id)))
        "activation journal identity mismatch"
    restore ← choose_restore st j.activation previous target (last_of st.activations)
    restored ← (materialize_live st restore).outcome
    ok (unlink_journal restored)

  -- Any error in it is a failed recovery.
  abbrev pub recovery_or_error : Result String Store → Result String Store
  recovery_or_error (ok st) = ok st
  recovery_or_error (err e) = err "pending activation recovery failed"

  unfoldable pub recover_journal : Store → Option Journal → Result String Store
  unfolding restore_journal
  recover_journal st none = ok st
  recover_journal st (some j) = recovery_or_error (restore_journal st j)

  -- `_recover_activation`
  unfoldable pub recover_activation : Store → Result String Store
  unfolding recover_journal
  recover_activation st = recover_journal st st.journal

  -- `active_snapshot`, after which the store may be recovered.
  unfoldable pub active_snapshot : Store → Result String (Store × SnapshotManifest)
  unfolding recover_activation last_activation verify
  active_snapshot st = do
    recovered ← recover_activation st
    last ← last_activation (last_of recovered.activations)
    active ← verify recovered last.snapshot_id
    ok (recovered, active)

  -- The same rollback once more.
  unfoldable pub repeat_rollback :
      Store
      → SnapshotManifest
      → Digest
      → SnapshotActivation
      → Result String (Store × SnapshotActivation)
  unfolding require_live_matches
  repeat_rollback st target approval_digest previous = do
    raise_if
        (not (same previous.action to_rollback)
          || not (same previous.approval_digest (some approval_digest)))
        "rollback target is already active under different evidence"
    require_live_matches st.live target
    ok (st, previous)

  abbrev pub rollback_event :
      Store → SnapshotManifest → SnapshotManifest → Digest → PromotionApproval → SnapshotActivation
  rollback_event st target active approval_digest approval = record {
    ordinal = suc (length st.activations);
    action = to_rollback;
    snapshot_id = target.snapshot_id;
    previous_snapshot_id = some active.snapshot_id;
    decision_id = none;
    approval_digest = some approval_digest;
    actor = approval.actor;
    activated_at = approval.approved_at;
  }

  unfoldable pub new_rollback :
      Store
      → SnapshotManifest
      → SnapshotManifest
      → Digest
      → PromotionApproval
      → Result String (Store × SnapshotActivation)
  unfolding require_live_matches activate_transaction
  new_rollback st target active approval_digest approval = do
    raise_if (not (same active.parent_snapshot_id (some target.snapshot_id)))
        "rollback target is not the active snapshot parent"
    require_live_matches st.live active
    done ←
        activate_transaction st target active
          (rollback_event st target active approval_digest approval)
    ok (done, rollback_event st target active approval_digest approval)

  module _ (canonical_digest : PromotionApproval → Digest) where
    unfoldable pub approved_rollback :
        Store
        → ArtifactId
        → SnapshotManifest
        → Option PromotionApproval
        → Result String (Store × SnapshotActivation)
    unfolding active_snapshot repeat_rollback new_rollback last_activation
    approved_rollback st id target none = err "human approval is required for rollback"
    approved_rollback st id target (some approval) = do
      raise_if
          (not (same approval.action ApprovalAction.rollback)
            || not (same approval.target_snapshot_id id))
          "approval action or target does not match request"
      found ← active_snapshot st
      previous ← last_activation (last_of found.0.activations)
      if same found.1.snapshot_id target.snapshot_id
          then repeat_rollback found.0 target (canonical_digest approval) previous
          else new_rollback found.0 target found.1 (canonical_digest approval) approval

    -- `rollback`
    unfoldable pub rollback_to :
        Store → ArtifactId → Option PromotionApproval → Result String (Store × SnapshotActivation)
    unfolding verify approved_rollback
    rollback_to st id approval = do target ← verify st id; approved_rollback st id target approval
