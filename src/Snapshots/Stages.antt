-- ===== src/Snapshots/Stages.antt =====
-- The projects that an activation passes through, one after each of its writes.
use agent_loop_gate.Base.{
  Option, false, if◌then◌else◌, All, Occurs, Occurs-append, keys, ap, suc, String, Bool, true, none,
  some, List, [], ◌∷◌, ◌++◌, ok, is_some, same, length, string_eq, nat_eq, option_eq, same_iff, ◌≡◌,
  refl, sym, ◌∙◌, inl, inr, ◌⊎◌,
}
use mathlib.Core.Path.{subst}
use agent_loop_gate.Schemas.{Digest}
use agent_loop_gate.Snapshots.Models.{
  SnapshotManifest, SnapshotActivation, Journal, Store, Files, Run, raises, writes, and_then,
  activation_action_eq,
}
use agent_loop_gate.Snapshots.Manager.{
  last_of, verify, require_live_matches, append_activation, materialize_live, write_journal,
  unlink_journal, activate_locked,
}
use agent_loop_gate.Snapshots.Live.{verify-IsIntact}
use agent_loop_gate.Snapshots.Writes.{
  IsPlaced, Succeeds, Succeeds-and_then, materialize_live-matches,
}

pub last_of-append :
    (done : List SnapshotActivation) (a : SnapshotActivation) → last_of (done ++ (a ∷ [])) ≡ some a
last_of-append [] a = refl
last_of-append (b ∷ []) a = refl
last_of-append (b ∷ c ∷ done) a = last_of-append (c ∷ done) a

module _ (is_safe_id : String → Bool) (file_digest : String → Digest)
    (parents : String → List String) (torn : String → Files → Files) where
  -- The live harness is that of a manifest.
  abbrev pub IsLive : SnapshotManifest → Store → Type 0
  IsLive m st = require_live_matches is_safe_id file_digest parents torn st.live m ≡ ok tt

  -- No activation is pending, and the last one is of the snapshot that is live.
  pub record IsSettled (st : Store) (previous : SnapshotManifest) : Type 0 where
    pub last : SnapshotActivation
    pub is_last : last_of st.activations ≡ some last
    pub names_previous : last.snapshot_id ≡ previous.snapshot_id
    pub is_verified :
        verify is_safe_id file_digest parents torn st previous.snapshot_id ≡ ok previous
    pub is_live : IsLive previous st
    pub has_no_journal : st.journal ≡ none

  -- The activation leads from the one snapshot to the other.
  pub record IsPlanned (st : Store) (target previous : SnapshotManifest) (a : SnapshotActivation)
      : Type 0 where
    pub is_verified : verify is_safe_id file_digest parents torn st target.snapshot_id ≡ ok target
    pub names_target : a.snapshot_id ≡ target.snapshot_id
    pub names_previous : a.previous_snapshot_id ≡ some previous.snapshot_id
    pub is_next : a.ordinal ≡ suc (length st.activations)

  abbrev all_parents : List String → List String
  all_parents [] = []
  all_parents (path ∷ rest) = parents path ++ all_parents rest

  -- The directories of the live harness, and the parents of the files of both snapshots.
  abbrev pub all_directories : Store → SnapshotManifest → SnapshotManifest → List String
  all_directories st target previous =
      st.directories
      ++ (all_parents (keys previous.harness_files) ++ all_parents (keys target.harness_files))

  -- No file of either snapshot stands where the other one, itself or the live harness has a
  -- directory.
  abbrev pub IsPlaceable : Store → SnapshotManifest → SnapshotManifest → Type 0
  IsPlaceable st target previous =
      (path : String)
      → Occurs path (keys previous.harness_files) ⊎ Occurs path (keys target.harness_files)
      → ¬ Occurs path (all_directories st target previous)

  Occurs-all_parents :
      (path d : String) (paths : List String)
      → Occurs path paths
      → Occurs d (parents path)
      → Occurs d (all_parents paths)
  Occurs-all_parents path d [] o p = elim o [ ]
  Occurs-all_parents path d (q ∷ rest) (inl e) p =
      (Occurs-append d (parents q) (all_parents rest)).1
        (inl (subst (λ (x : String). Occurs d (parents x)) e p))
  Occurs-all_parents path d (q ∷ rest) (inr o) p =
      (Occurs-append d (parents q) (all_parents rest)).1 (inr (Occurs-all_parents path d rest o p))

  pub previous-IsPlaced :
      (st : Store) (target previous : SnapshotManifest)
      → IsPlaceable st target previous
      → IsPlaced is_safe_id file_digest parents torn
          (all_directories st target previous)
          previous.harness_files
  previous-IsPlaced st target previous clear path o = (
    clear path (inl o),
    λ d p. (Occurs-append d st.directories _).1 (
        inr (
          (Occurs-append d (all_parents (keys previous.harness_files)) _).1
            (inl (Occurs-all_parents path d (keys previous.harness_files) o p)))),
  )

  pub target-IsPlaced :
      (st : Store) (target previous : SnapshotManifest)
      → IsPlaceable st target previous
      → IsPlaced is_safe_id file_digest parents torn
          (all_directories st target previous)
          target.harness_files
  target-IsPlaced st target previous clear path o = (
    clear path (inr o),
    λ d p. (Occurs-append d st.directories _).1 (
        inr (
          (Occurs-append d (all_parents (keys previous.harness_files)) _).1
            (inr (Occurs-all_parents path d (keys target.harness_files) o p)))),
  )

  -- The journal of the activation.
  abbrev pub journal_of : SnapshotManifest → SnapshotManifest → SnapshotActivation → Journal
  journal_of target previous a = record {
    previous = previous.snapshot_id;
    target = target.snapshot_id;
    activation = a;
  }

  -- A project where the activation is pending: the given activations are registered.
  abbrev pub IsPending :
      Store
      → SnapshotManifest
      → SnapshotManifest
      → SnapshotActivation
      → List SnapshotActivation
      → Store
      → Type 0
  IsPending st target previous a done x =
      (x.snapshots ≡ st.snapshots)
      × (x.activations ≡ done)
      × (x.journal ≡ some (journal_of target previous a))
      × ((d : String) → Occurs d x.directories → Occurs d (all_directories st target previous))

  -- The projects that _activate_locked passes through.
  abbrev pub IsStage :
      Store → SnapshotManifest → SnapshotManifest → SnapshotActivation → Store → Type 0
  IsStage st target previous a x =
      IsPending st target previous a st.activations x
      ⊎ (IsPending st target previous a (st.activations ++ (a ∷ [])) x
          ⊎ ((x.journal ≡ none)
              × (x.snapshots ≡ st.snapshots)
              × (x.activations ≡ st.activations ++ (a ∷ []))
              × IsLive target x))

  All-IsStage :
      (P Q : Store → Type 0) (xs : List Store) → ((x : Store) → P x → Q x) → All P xs → All Q xs
  All-IsStage P Q [] f h = tt
  All-IsStage P Q (x ∷ xs) f h = (f x h.0, All-IsStage P Q xs f h.1)

  weaken :
      (P Q R : Store → Type 0) (r : Run)
      → ((x : Store) → P x → Q x)
      → Succeeds P r R
      → Succeeds Q r R
  weaken P Q R r f (out, e, trace, good) = (out, e, All-IsStage P Q r.trace f trace, good)

  append_activation-IsStage :
      (st moved : Store) (target previous : SnapshotManifest) (a : SnapshotActivation)
      → IsPending st target previous a st.activations moved
      → IsLive target moved
      → a.ordinal ≡ suc (length st.activations)
      → Succeeds
          (IsStage st target previous a)
          (append_activation is_safe_id file_digest parents torn moved a)
          (λ out.
            IsPending st target previous a (st.activations ++ (a ∷ [])) out × IsLive target out)
  unfolding append_activation
  append_activation-IsStage st moved target previous a pending is_live next =
      let added = record moved { activations = moved.activations ++ (a ∷ []) } in
      let registered : IsPending st target previous a (st.activations ++ (a ∷ [])) added = (
        pending.0,
        ap (λ (l : List SnapshotActivation). l ++ (a ∷ [])) pending.1,
        pending.2,
        pending.3,
      ) in
      let ordinal : same a.ordinal (suc (length moved.activations)) ≡ true =
        (same_iff a.ordinal (suc (length moved.activations))).1
          (next ∙ ap (λ (l : List SnapshotActivation). suc (length l)) (sym pending.1)) in
      rw ordinal (added, refl, (inr (inl registered), tt), (registered, is_live))

  not_pending :
      (P : Store → Type 0) (b : Bool) (e : String) (r : Run) (Q : Store → Type 0)
      → b ≡ false
      → Succeeds P r Q
      → Succeeds P (if b then raises e else r) Q
  not_pending P true e r Q h good = cc h
  not_pending P false e r Q h good = good

  -- A planned activation of a settled project succeeds, and each of its writes leaves one of the
  -- stages.
  pub activate_locked-IsStage :
      (st : Store) (target previous : SnapshotManifest) (a : SnapshotActivation)
      → IsSettled st previous
      → IsPlanned st target previous a
      → IsPlaceable st target previous
      → Succeeds
          (IsStage st target previous a)
          (activate_locked is_safe_id file_digest parents torn st target previous a)
          (λ out. IsStage st target previous a out)
  unfolding activate_locked verify
  activate_locked-IsStage st target previous a settled planned clear =
      let start = write_journal is_safe_id file_digest parents torn st target previous a in
      let inside = λ (d : String) (o : Occurs d st.directories).
        (Occurs-append d st.directories (
            all_parents (keys previous.harness_files) ++ all_parents (keys target.harness_files))).1
          (inl o) in
      let pending : IsPending st target previous a st.activations start =
        (refl, refl, refl, inside) in
      let intact =
        (verify-IsIntact is_safe_id file_digest parents torn st target.snapshot_id target
          planned.is_verified).1 in
      not_pending _ (is_some st.journal) "another activation is pending" _ _
        (ap (λ (j : Option Journal). is_some j) settled.has_no_journal)
        (Succeeds-and_then _ (writes start) _ (λ x. x ≡ start) _
          (start, refl, (inl pending, tt), refl)
          (λ x e.
            subst
              (λ (y : Store).
                Succeeds (IsStage st target previous a)
                  (and_then (materialize_live is_safe_id file_digest parents torn y target)
                    (λ moved.
                      and_then (append_activation is_safe_id file_digest parents torn moved a)
                        (λ appended. writes (unlink_journal appended))))
                  (IsStage st target previous a))
              (sym e)
              (Succeeds-and_then _
                (materialize_live is_safe_id file_digest parents torn start target) _ _ _
                (weaken _ _ _ (materialize_live is_safe_id file_digest parents torn start target)
                  (λ y h. inl h)
                  (materialize_live-matches is_safe_id file_digest parents torn
                    (all_directories st target previous) start start target
                    (refl, refl, refl, inside) (target-IsPlaced st target previous clear) intact))
                (λ moved (held, is_live).
                  Succeeds-and_then _
                    (append_activation is_safe_id file_digest parents torn moved a) _ _ _
                    (append_activation-IsStage st moved target previous a held is_live
                      planned.is_next)
                    (λ added (registered, good).
                      let last : IsStage st target previous a (unlink_journal added) =
                        inr (inr (refl, registered.0, registered.1, good)) in
                      (unlink_journal added, refl, (last, tt), last))))))
