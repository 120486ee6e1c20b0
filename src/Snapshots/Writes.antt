-- ===== src/Snapshots/Writes.antt =====
-- The writes of _materialize_live, on each of which the project differs in its live harness alone.
use agent_loop_gate.Base.{
  ◌++◌, any, filter, filter-Occurs, Occurs-append, Occurs-contains, false, String, Bool, true, not,
  ◌||◌, some, List, [], ◌∷◌, ok, same, contains, lookup, insert, keys, all, is_subset,
  contains-keys-insert, string_eq, option_eq, same_iff, ◌≡◌, refl, sym, ap, ◌∙◌, inl, inr, arith,
  All, Occurs, and_true, Bool-cases,
}
use mathlib.Core.Path.{subst}
use agent_loop_gate.Schemas.{Digest}
use agent_loop_gate.Snapshots.Models.{SnapshotManifest, Store, Files, Run, and_then}
use agent_loop_gate.Base.Sorting.{sorted, str_lt, Occurs-sorted}
use agent_loop_gate.Snapshots.Manager.{
  files_of, require_live_matches, make_parents, replace_file, write_files, unlink_files, undesired,
  materialize_live,
}
use agent_loop_gate.Snapshots.Live.{
  HasDigests-of, IsWritten, digests, IsIntact, written_over, matches_after, HasDigests,
}

-- The run returns, its writes satisfy the one predicate and its result the other.
abbrev pub Succeeds : (Store → Type 0) → Run → (Store → Type 0) → Type 0
Succeeds P r Q = (out : Store) × (r.outcome ≡ ok out) × All P r.trace × Q out

All-append : (P : Store → Type 0) (xs ys : List Store) → All P xs → All P ys → All P (xs ++ ys)
All-append P [] ys h k = k
All-append P (x ∷ xs) ys h k = (h.0, All-append P xs ys h.1 k)

pub Succeeds-and_then :
    (P : Store → Type 0) (r : Run) (f : Store → Run) (Q R : Store → Type 0)
    → Succeeds P r Q
    → ((st : Store) → Q st → Succeeds P (f st) R)
    → Succeeds P (and_then r f) R
Succeeds-and_then P r f Q R (st, e, trace, q) k =
    let (out, d, more, good) = k st q in
    rw e (out, d, All-append P r.trace (f st).trace trace more, good)

module _ (is_safe_id : String → Bool) (file_digest : String → Digest)
    (parents : String → List String) (torn : String → Files → Files) where
  -- A project that differs from another one in the live harness alone, whose directories are all
  -- among those that are allowed.
  abbrev pub IsMoved : List String → Store → Store → Type 0
  IsMoved allowed base x =
      (x.snapshots ≡ base.snapshots)
      × (x.activations ≡ base.activations)
      × (x.journal ≡ base.journal)
      × ((d : String) → Occurs d x.directories → Occurs d allowed)

  -- No path is one of the allowed directories, and its parents are all allowed.
  abbrev pub IsPlaced : List String → List (String × Digest) → Type 0
  IsPlaced allowed hf =
      (path : String)
      → Occurs path (keys hf)
      → (¬ Occurs path allowed) × ((d : String) → Occurs d (parents path) → Occurs d allowed)

  -- No live file is one of the allowed directories.
  abbrev IsFree : List String → Files → Type 0
  IsFree allowed live = (q : String) → contains q (keys live) ≡ true → ¬ Occurs q allowed

  parents_free :
      (allowed : List String) (live : Files) (ds : List String)
      → IsFree allowed live
      → ((d : String) → Occurs d ds → Occurs d allowed)
      → any (λ d. contains d (keys live)) ds ≡ false
  parents_free allowed live [] free inside = refl
  parents_free allowed live (d ∷ ds) free inside = elim (Bool-cases (contains d (keys live))) [
    | inl p ↦ absurd (free d p (inside d (inl refl)))
    | inr p ↦ rw (p, parents_free allowed live ds free (λ e o. inside e (inr o))) refl
  ]

  make_parents-IsMoved :
      (allowed : List String) (base st : Store) (path : String)
      → IsMoved allowed base st
      → IsFree allowed st.live
      → ((d : String) → Occurs d (parents path) → Occurs d allowed)
      → Succeeds
          (IsMoved allowed base)
          (make_parents is_safe_id file_digest parents torn st path)
          (λ out. IsMoved allowed base out × (out.live ≡ st.live))
  make_parents-IsMoved allowed base st path moved free inside =
      let next = record st { directories = parents path ++ st.directories } in
      let good : IsMoved allowed base next = (
        moved.0,
        moved.1,
        moved.2,
        λ d o. elim ((Occurs-append d (parents path) st.directories).0 o) [
          | inl new ↦ inside d new
          | inr old ↦ moved.3 d old
        ],
      ) in
      rw (parents_free allowed st.live (parents path) free inside)
        (next, refl, (good, tt), (good, refl))

  replace_file-IsMoved :
      (allowed : List String) (base st : Store) (path content : String) (d : Digest)
      → IsMoved allowed base st
      → ¬ Occurs path allowed
      → file_digest content ≡ d
      → Succeeds
          (IsMoved allowed base)
          (replace_file is_safe_id file_digest parents torn st path d (some content))
          (λ out. IsMoved allowed base out × (out.live ≡ insert path content st.live))
  replace_file-IsMoved allowed base st path content d moved apart agrees =
      let next = record st { live = insert path content st.live } in
      let clear : contains path st.directories ≡ false =
        elim (Bool-cases (contains path st.directories)) [
          | inl p ↦ absurd (apart (moved.3 path (Occurs-contains path st.directories p)))
          | inr p ↦ p
        ] in
      rw (clear, (same_iff (file_digest content) d).1 agrees)
        (next, refl, (moved, (moved, tt)), (moved, refl))

  write_files-IsWritten :
      (allowed : List String) (base st : Store) (source : Files) (hf : List (String × Digest))
      → IsMoved allowed base st
      → IsFree allowed st.live
      → IsPlaced allowed hf
      → HasDigests is_safe_id file_digest parents torn source hf
      → Succeeds
          (IsMoved allowed base)
          (write_files is_safe_id file_digest parents torn source st hf)
          (λ out.
            IsMoved allowed base out
            × IsWritten is_safe_id file_digest parents torn source st.live hf out.live)
  unfolding write_files
  write_files-IsWritten allowed base st source [] moved free placed h =
      (st, refl, tt, (moved, (λ q. refl, λ q. refl)))
  write_files-IsWritten allowed base st source ((path, d) ∷ rest) moved free placed h =
      let (content, found, agrees) = h.0 in
      let (apart, inside) = placed path (inl refl) in
      Succeeds-and_then _ (make_parents is_safe_id file_digest parents torn st path) _ _ _
        (make_parents-IsMoved allowed base st path moved free inside)
        (λ made (moved1, same1). rw found (
          Succeeds-and_then _
            (replace_file is_safe_id file_digest parents torn made path d (some content)) _ _ _
            (replace_file-IsMoved allowed base made path content d moved1 apart agrees)
            (λ next (moved2, same2).
              let live2 : next.live ≡ insert path content st.live =
                same2 ∙ ap (insert path content) same1 in
              let (out, e, trace, (moved3, (looks, has))) =
                write_files-IsWritten allowed base next source rest moved2
                  (subst (IsFree allowed) (sym live2)
                    (free_insert allowed st.live path content free apart))
                  (λ q o. placed q (inr o)) h.1 in
              (
                out,
                e,
                trace,
                (
                  moved3,
                  (
                    λ q.
                        written_over is_safe_id file_digest parents torn source st.live out.live
                          path content rest q found (rw live2 at (looks q)),
                    λ q.
                        wider (contains q (keys out.live)) _ _ _ _
                          (has q
                            ∙ ap (λ (l : Files). contains q (keys rest) || contains q (keys l))
                                live2)
                          (contains-keys-insert q path content st.live),
                  ),
                ),
              ))))
    where
      free_insert :
          (allowed : List String) (live : Files) (path content : String)
          → IsFree allowed live
          → ¬ Occurs path allowed
          → IsFree allowed (insert path content live)
      free_insert allowed live path content free apart q o = elim (Bool-cases (same q path)) [
        | inl p ↦ rw ((same_iff q path).0 p) apart
        | inr p ↦ free q (ground (arith, contains-keys-insert q path content live, o, p))
      ]

      wider : (a r k n l : Bool) → a ≡ (r || k) → k ≡ (n || l) → a ≡ ((n || r) || l)
      wider a r k n l h e = ground (arith, h, e)

  keys-filter :
      (path q : String) (live : Files)
      → contains q (keys (filter (λ x. not (same x.0 path)) live)) ≡ true
      → (contains q (keys live) ≡ true) × ¬ (q ≡ path)
  keys-filter path q [] h = cc h
  keys-filter path q ((r, c) ∷ live) h = elim (Bool-cases (same r path)) [
    | inl p ↦
        let (there, differs) = keys-filter path q live (rw p at h) in
        (ground (arith, there), differs)
    | inr p ↦ elim (Bool-cases (same q r)) [
      | inl e ↦
          (rw e refl, λ (k : q ≡ path). cc (p, (same_iff r path).1 (sym ((same_iff q r).0 e) ∙ k)))
      | inr e ↦
          let (there, differs) = keys-filter path q live (rw (p, e) at h) in (rw e there, differs)
    ]
  ]

  unlink_files-IsMoved :
      (allowed : List String) (base st : Store) (gone : List String)
      → IsMoved allowed base st
      → Succeeds
          (IsMoved allowed base)
          (unlink_files is_safe_id file_digest parents torn st gone)
          (λ out.
            IsMoved allowed base out
            × ((q : String)
                → contains q (keys out.live) ≡ true
                → (contains q (keys st.live) ≡ true) × ¬ Occurs q gone))
  unfolding unlink_files
  unlink_files-IsMoved allowed base st [] moved =
      (st, refl, tt, (moved, λ q h. (h, λ o. elim o [ ])))
  unlink_files-IsMoved allowed base st (path ∷ rest) moved =
      let next = record st { live = filter (λ x. not (same x.0 path)) st.live } in
      let (out, e, trace, (moved1, left)) = unlink_files-IsMoved allowed base next rest moved in
      (
        out,
        e,
        (moved, trace),
        (
          moved1,
          λ q h.
              let (there, stays) = left q h in
              let (before, differs) = keys-filter path q st.live there in
              (before, λ o. elim o [ inl k ↦ differs k | inr more ↦ stays more ]),
        ),
      )

  desired_left :
      (m : SnapshotManifest) (live : Files) (q : String)
      → contains q (keys live) ≡ true
      → ¬ Occurs q (sorted str_lt (undesired is_safe_id file_digest parents torn m live))
      → contains q (keys m.harness_files) ≡ true
  desired_left m live q there stays = elim (Bool-cases (contains q (keys m.harness_files))) [
    | inl p ↦ p
    | inr p ↦ absurd (
        stays (
          (Occurs-sorted str_lt q (undesired is_safe_id file_digest parents torn m live)).1 (
            filter-Occurs (λ path. not (contains path (keys m.harness_files))) q (keys live)
              (Occurs-contains q (keys live) there) (rw p refl))))
  ]

  -- Whatever is live, a snapshot whose files are intact and can be placed is materialised, and then
  -- the live harness matches it; nothing but the live harness changes, also in between.
  pub materialize_live-matches :
      (allowed : List String) (base st : Store) (m : SnapshotManifest)
      → IsMoved allowed base st
      → IsPlaced allowed m.harness_files
      → IsIntact is_safe_id file_digest parents torn
          (files_of (lookup m.snapshot_id st.snapshots))
          m
      → Succeeds
          (IsMoved allowed base)
          (materialize_live is_safe_id file_digest parents torn st m)
          (λ out.
            IsMoved allowed base out
            × (require_live_matches is_safe_id file_digest parents torn out.live m ≡ ok tt))
  unfolding materialize_live
  materialize_live-matches allowed base st m moved placed intact =
      let source = files_of (lookup m.snapshot_id st.snapshots) in
      let gone = sorted str_lt (undesired is_safe_id file_digest parents torn m st.live) in
      let held =
        HasDigests-of is_safe_id file_digest parents torn source m.harness_files
          (and_true
            (is_subset (keys (digests is_safe_id file_digest parents torn source))
              (keys m.harness_files))
            (all
              (λ x.
                same (lookup x.0 (digests is_safe_id file_digest parents torn source)) (some x.1))
              m.harness_files)
            intact).1 in
      Succeeds-and_then _ (unlink_files is_safe_id file_digest parents torn st gone) _ _ _
        (unlink_files-IsMoved allowed base st gone moved)
        (λ emptied (moved1, left).
          let only = λ (q : String) (h : contains q (keys emptied.live) ≡ true).
            desired_left m st.live q (left q h).0 (left q h).1 in
          Succeeds-and_then _
            (write_files is_safe_id file_digest parents torn source emptied m.harness_files) _ _ _
            (write_files-IsWritten allowed base emptied source m.harness_files moved1
              (λ q h. (placed q (Occurs-contains q (keys m.harness_files) (only q h))).0) placed
              held)
            (λ out (moved2, written).
              let good =
                matches_after is_safe_id file_digest parents torn source emptied.live out.live m
                  held only written in
              rw good (out, refl, tt, (moved2, good))))
