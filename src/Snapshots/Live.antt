-- ===== src/Snapshots/Live.antt =====
-- What _materialize_live leaves in the live harness.
use agent_loop_gate.Base.{
  String, Bool, true, not, ◌||◌, Option, none, some, List, [], ◌∷◌, ok, same, contains, lookup,
  insert, keys, all, is_subset-Occurs, contains-Occurs, lookup-insert, string_eq, option_eq,
  same_iff, same_of, if◌then◌else◌, ◌≡◌, refl, sym, ap, ◌∙◌, inl, inr, arith, All, some_of, Occurs,
  and_true, Bool-cases, raise_if-eq-ok, ok-injective,
}
use mathlib.Core.Path.{subst}
use agent_loop_gate.Schemas.{Digest}
use agent_loop_gate.Snapshots.Models.{SnapshotManifest, StoredSnapshot, Store, Files}
use agent_loop_gate.Snapshots.Manager.{
  same_dict, files_of, tree_digests, digest_at, require_live_matches, verify, verify_stored,
}

module _ (is_safe_id : String → Bool) (file_digest : String → Digest)
    (parents : String → List String) (torn : String → Files → Files) where
  abbrev pub digests : Files → List (String × Digest)
  digests files = tree_digests is_safe_id file_digest parents torn files

  -- The files of a snapshot have the digests of its manifest.
  abbrev pub IsIntact : Files → SnapshotManifest → Type 0
  IsIntact source m = same_dict (digests source) m.harness_files ≡ true

  -- Each path of a list has its digest in the files.
  abbrev pub HasDigests : Files → List (String × Digest) → Type 0
  HasDigests source =
      All
        (λ x. (content : String) × (lookup x.0 source ≡ some content) × (file_digest content ≡ x.1))

  digest_lookup :
      (source : Files) (path : String) (d : Digest)
      → lookup path (digests source) ≡ some d
      → (content : String) × (lookup path source ≡ some content) × (file_digest content ≡ d)
  digest_lookup [] path d h = cc h
  digest_lookup ((q, c) ∷ source) path d h = elim (Bool-cases (same path q)) [
    | inl p ↦ (c, rw p refl, some_of (rw p at h))
    | inr p ↦ let (content, e, f) = digest_lookup source path d (rw p at h) in (content, rw p e, f)
  ]

  lookup_digest :
      (source : Files) (path content : String)
      → lookup path source ≡ some content
      → lookup path (digests source) ≡ some (file_digest content)
  lookup_digest [] path content h = cc h
  lookup_digest ((q, c) ∷ source) path content h = elim (Bool-cases (same path q)) [
    | inl p ↦ rw p (ap (λ x. some (file_digest x)) (some_of (rw p at h)))
    | inr p ↦ rw p (lookup_digest source path content (rw p at h))
  ]

  pub HasDigests-of :
      (source : Files) (hf : List (String × Digest))
      → all (λ x. same (lookup x.0 (digests source)) (some x.1)) hf ≡ true
      → HasDigests source hf
  HasDigests-of source [] h = tt
  HasDigests-of source ((path, d) ∷ rest) h =
      let (first, more) =
        and_true (same (lookup path (digests source)) (some d))
          (all (λ x. same (lookup x.0 (digests source)) (some x.1)) rest) h in
      (
        digest_lookup source path d ((same_iff (lookup path (digests source)) (some d)).0 first),
        HasDigests-of source rest more,
      )

  -- Files written over the live ones.
  abbrev pub IsWritten : Files → Files → List (String × Digest) → Files → Type 0
  IsWritten source live hf after =
      ((q : String)
        → lookup q after ≡ (if contains q (keys hf) then lookup q source else lookup q live))
      × ((q : String) → contains q (keys after) ≡ (contains q (keys hf) || contains q (keys live)))

  pub written_over :
      (source live after : Files) (path content : String) (rest : List (String × Digest))
      (q : String)
      → lookup path source ≡ some content
      → lookup q after
        ≡ (if contains q (keys rest) then lookup q source else lookup q (insert path content live))
      → lookup q after
        ≡ (if same q path || contains q (keys rest) then lookup q source else lookup q live)
  written_over source live after path content rest q found h = elim (Bool-cases (same q path)) [
    | inl p ↦
        let e : lookup q source ≡ some content = rw ((same_iff q path).0 p) found in
        ground (arith, h, p, e, lookup-insert path q content live)
    | inr p ↦ ground (arith, h, p, lookup-insert path q content live)
  ]

  digests_after :
      (source after : Files) (every : List (String × Digest))
      → ((q : String) → contains q (keys every) ≡ true → lookup q after ≡ lookup q source)
      → (hf : List (String × Digest))
      → ((q : String) → Occurs q (keys hf) → contains q (keys every) ≡ true)
      → HasDigests source hf
      → all (λ x. same (digest_at is_safe_id file_digest parents torn after x.0) (some x.1)) hf
        ≡ true
  digests_after source after every looks [] inside h = refl
  digests_after source after every looks ((path, d) ∷ rest) inside h =
      let (content, found, agrees) = h.0 in
      let e : lookup path after ≡ some content = looks path (inside path (inl refl)) ∙ found in
      let first : digest_at is_safe_id file_digest parents torn after path ≡ some d =
        lookup_digest after path content e ∙ ap (λ x. some x) agrees in
      ground (
        arith,
        (same_iff (digest_at is_safe_id file_digest parents torn after path) (some d)).1 first,
        digests_after source after every looks rest (λ q o. inside q (inr o)) h.1,
      )

  -- After the second loop the live files match the manifest.
  pub matches_after :
      (source live after : Files) (m : SnapshotManifest)
      → HasDigests source m.harness_files
      → ((q : String) → contains q (keys live) ≡ true → contains q (keys m.harness_files) ≡ true)
      → IsWritten source live m.harness_files after
      → require_live_matches is_safe_id file_digest parents torn after m ≡ ok tt
  unfolding require_live_matches
  matches_after source live after m h only (looks, has) =
      let one =
        is_subset-Occurs (keys after) (keys m.harness_files)
          (λ q o. ground (arith, has q, contains-Occurs q (keys after) o, only q)) in
      let two =
        is_subset-Occurs (keys m.harness_files) (keys after)
          (λ q o. ground (arith, has q, contains-Occurs q (keys m.harness_files) o)) in
      let three =
        digests_after source after m.harness_files (λ q c. looks q ∙ rw c refl) m.harness_files
          (λ q o. contains-Occurs q (keys m.harness_files) o) h in
      rw (one, two, three) refl

  verify_stored-cases :
      (id : String) (o : Option StoredSnapshot) (m : SnapshotManifest)
      → verify_stored is_safe_id file_digest parents torn id o ≡ ok m
      → (m.snapshot_id ≡ id) × IsIntact (files_of o) m
  unfolding verify_stored
  verify_stored-cases id none m h = cc h
  verify_stored-cases id (some s) m h =
      let (named, h1) = raise_if-eq-ok (not (same s.manifest.snapshot_id id)) _ _ h in
      let (intact, h2) =
        raise_if-eq-ok (not (same_dict (digests s.files) s.manifest.harness_files)) _ _ h1 in
      subst (λ (x : SnapshotManifest). (x.snapshot_id ≡ id) × IsIntact s.files x) (ok-injective h2)
        (same_of s.manifest.snapshot_id id named, ground (arith, intact))

  -- A verified snapshot is the one that its directory holds, and its files are intact.
  pub verify-IsIntact :
      (st : Store) (id : String) (m : SnapshotManifest)
      → verify is_safe_id file_digest parents torn st id ≡ ok m
      → (m.snapshot_id ≡ id) × IsIntact (files_of (lookup m.snapshot_id st.snapshots)) m
  unfolding verify
  verify-IsIntact st id m h =
      let (safe, h1) = raise_if-eq-ok (not (is_safe_id id)) _ _ h in
      let (named, intact) = verify_stored-cases id (lookup id st.snapshots) m h1 in
      (
        named,
        subst (λ (x : String). IsIntact (files_of (lookup x st.snapshots)) m) (sym named) intact,
      )
