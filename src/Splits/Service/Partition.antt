-- ===== src/Splits/Service/Partition.antt =====
-- A validated split assigns every task to one pool.
use mathlib.Core.Path.{subst}
use agent_loop_gate.Base.{
  ℕ, Bool, true, false, not, ◌&&◌, ◌||◌, some, List, [], ◌∷◌, ◌++◌, Result, ok, >>=-eq-ok,
  raise_if-eq-ok, ok-injective, same, same_iff, nat_eq, Occurs, All, lookup, keys, length,
  is_subset, is_unique, Occurs-append, same_set, any, contains, contains-Occurs, Occurs-is_subset,
  Bool-cases, leb, ◌==◌, string_eq, ◌≡◌, ◌≢◌, refl, sym, ◌∙◌, inl, inr, arith, if◌then◌else◌,
}
use mathlib.Core.Option.{some-injective}
use agent_loop_gate.Schemas.{Pool, update_source, release_ood, pool_eq, ArtifactId, NonEmpty}
use agent_loop_gate.Splits.Service.{
  SplitConfig, SplitError, PoolManifest, Loaded, task_ids, families, load_pools, load_and_validate,
  check_manifests, manifest_of, expected_pool_counts, other_families, set_size, check_replay,
  check_families,
}
use agent_loop_gate.Splits.Service.Loading.{IsSized, load_pools-IsOwned, load_pools-IsSized}

-- What a validated split promises of its manifests.
pub record IsPartition (c : SplitConfig) (ms : List (Pool × PoolManifest)) : Type 0 where
  -- Each of the six pools has its manifest, of the frozen size and the benchmark's commit.
  pub sized : All (IsSized c.benchmark.commit ms) expected_pool_counts
  -- No task stands in two pools.
  pub disjoint :
      (p q : Pool) (m n : PoolManifest) (t : ArtifactId)
      → lookup p ms ≡ some m
      → lookup q ms ≡ some n
      → Occurs t (task_ids m.tasks)
      → Occurs t (task_ids n.tasks)
      → p ≡ q
  -- The replay tasks are ten, all different, and come from the update source.
  pub replay_size : length c.replay_task_ids ≡ 10
  pub replay_unique : is_unique c.replay_task_ids ≡ true
  pub replay_known :
      (m : PoolManifest) (t : ArtifactId)
      → lookup update_source ms ≡ some m
      → Occurs t c.replay_task_ids
      → Occurs t (task_ids m.tasks)
  -- No workflow family of the OOD release pool stands in another pool.
  pub reserved :
      (m n : PoolManifest) (p : Pool) (f : ArtifactId)
      → lookup release_ood ms ≡ some m
      → lookup p ms ≡ some n
      → p ≢ release_ood
      → Occurs f (families m.tasks)
      → Occurs f (families n.tasks)
      → ⊥

manifest_of-some :
    (p : Pool) (ms : List (Pool × PoolManifest)) {m : PoolManifest}
    → manifest_of p ms ≡ ok m
    → lookup p ms ≡ some m
manifest_of-some p ms h = ground arith

any-false :
    (q : ArtifactId → Bool) (xs : List ArtifactId) (f : ArtifactId)
    → any q xs ≡ false
    → Occurs f xs
    → q f ≡ false
any-false q [] f h o = elim o [ ]
any-false q (x ∷ xs) f h (inl e) = rw e (ground arith)
any-false q (x ∷ xs) f h (inr o) = any-false q xs f (ground arith) o

of_not : (c : Bool) → not c ≡ false → c ≡ true
of_not c h = ground arith

sizes_of : (n : ℕ) (u : Bool) → (not (n == 10) || not u) ≡ false → (n ≡ 10) × (u ≡ true)
sizes_of n u h = ground arith

keeps_head :
    (c : Bool) (xs ys : List ArtifactId) (f : ArtifactId)
    → c ≡ false
    → Occurs f xs
    → Occurs f (if c then ys else xs ++ ys)
keeps_head true xs ys f h o = cc
keeps_head false xs ys f h o = (Occurs-append f xs ys).1 (inl o)

keeps_tail :
    (c : Bool) (xs ys : List ArtifactId) (f : ArtifactId)
    → Occurs f ys
    → Occurs f (if c then ys else xs ++ ys)
keeps_tail true xs ys f o = o
keeps_tail false xs ys f o = (Occurs-append f xs ys).1 (inr o)

-- A family of another pool is listed among the others.
Occurs-other_families :
    (ms : List (Pool × PoolManifest)) (p : Pool) (n : PoolManifest) (f : ArtifactId)
    → lookup p ms ≡ some n
    → p ≢ release_ood
    → Occurs f (families n.tasks)
    → Occurs f (other_families ms)
Occurs-other_families [] p n f e d o = cc
Occurs-other_families ((q, m) ∷ ms) p n f e d o = elim (Bool-cases (same p q)) [
  | inl s ↦
      let r : m ≡ n = ground arith in
      keeps_head (same q release_ood) (families m.tasks) (other_families ms) f
        (ground (arith, same_iff p q, same_iff q release_ood))
        (subst (λ (x : PoolManifest). Occurs f (families x.tasks)) (sym r) o)
  | inr s ↦
      keeps_tail (same q release_ood) (families m.tasks) (other_families ms) f
        (Occurs-other_families ms p n f (ground arith) d o)
]

module _ (read_manifest : NonEmpty → Result SplitError PoolManifest)
    (escapes_root : NonEmpty → Bool) where
  IsPartition-loaded :
      (c : SplitConfig) (l : Loaded) {u : Unit {0}}
      → load_pools read_manifest escapes_root c.benchmark.commit c.pools
          (record { manifests = []; task_owner = [] })
          expected_pool_counts
        ≡ ok l
      → check_manifests c l.manifests ≡ ok u
      → IsPartition c l.manifests
  unfolding check_manifests check_replay check_families
  IsPartition-loaded c l e k =
      let (source, s, k1) = >>=-eq-ok (manifest_of update_source l.manifests) _ k in
      let (v, r, k2) = >>=-eq-ok (check_replay c.replay_task_ids (task_ids source.tasks)) _ k1 in
      let (ood, o, k3) = >>=-eq-ok (manifest_of release_ood l.manifests) _ k2 in
      let (sizes, r1) =
        raise_if-eq-ok (not (length c.replay_task_ids == 10) || not (is_unique c.replay_task_ids)) _
          _ r in
      let (subset, r2) =
        raise_if-eq-ok (not (is_subset c.replay_task_ids (task_ids source.tasks))) _ _ r1 in
      let (few, k4) =
        raise_if-eq-ok
          (not (leb 2 (set_size (families ood.tasks)) && leb (set_size (families ood.tasks)) 3)) _ _
          k3 in
      let (free, k5) =
        raise_if-eq-ok (any (λ f. contains f (other_families l.manifests)) (families ood.tasks)) _ _
          k4 in
      let owned =
        load_pools-IsOwned read_manifest escapes_root c.benchmark.commit c.pools _ l
          expected_pool_counts e (λ p m t n i. cc) in
      let known = manifest_of-some update_source l.manifests s in
      let apart = manifest_of-some release_ood l.manifests o in
      record {
        sized =
            load_pools-IsSized read_manifest escapes_root c.benchmark.commit c.pools _ l
              expected_pool_counts e refl;
        disjoint = λ p q m n t em en im in'.
            some-injective _ _ (sym (owned p m t em im) ∙ owned q n t en in');
        replay_size = (sizes_of _ _ sizes).0;
        replay_unique = (sizes_of _ _ sizes).1;
        replay_known = λ m t em i.
            let same_source : source ≡ m = some-injective _ _ (sym known ∙ em) in
            subst (λ (x : PoolManifest). Occurs t (task_ids x.tasks)) same_source
              (Occurs-is_subset t c.replay_task_ids (task_ids source.tasks) (of_not _ subset) i);
        reserved = λ m n p f em en d om on.
            let same_ood : m ≡ ood = some-injective _ _ (sym em ∙ apart) in
            let listed =
              any-false (λ x. contains x (other_families l.manifests)) (families ood.tasks) f free
                (subst (λ (x : PoolManifest). Occurs f (families x.tasks)) same_ood om) in
            cc (
              contains-Occurs f (other_families l.manifests)
                  (Occurs-other_families l.manifests p n f en d on),
              listed,
            );
      }

  -- Whatever configuration `load_and_validate` accepts, the manifests that it returns are a
  -- partition: sized as frozen, without a shared task, with the replay tasks from the update
  -- source and the OOD families reserved.
  pub load_and_validate-IsPartition :
      (c : SplitConfig) {ms : List (Pool × PoolManifest)}
      → load_and_validate read_manifest escapes_root c ≡ ok ms
      → IsPartition c ms
  unfolding load_and_validate
  load_and_validate-IsPartition c h =
      let (pinned, h1) = raise_if-eq-ok (same c.benchmark.commit "PIN_BEFORE_PILOT") _ _ h in
      let (exact, h2) =
        raise_if-eq-ok (not (same_set (keys c.pools) (keys expected_pool_counts))) _ _ h1 in
      let empty : Loaded = record { manifests = []; task_owner = [] } in
      let (l, e, h3) =
        >>=-eq-ok
          (load_pools read_manifest escapes_root c.benchmark.commit c.pools empty
            expected_pool_counts)
          _ h2 in
      let (u, k, h4) = >>=-eq-ok (check_manifests c l.manifests) _ h3 in
      subst (IsPartition c) (ok-injective h4) (IsPartition-loaded c l e k)
