-- ===== src/Splits/Service/Loading.antt =====
-- The loop of `load_and_validate` over the pools.
use mathlib.Core.Path.{subst}
use agent_loop_gate.Base.{
  ℕ, Bool, true, false, not, Option, none, some, List, [], ◌∷◌, Result, ok, >>=-eq-ok,
  raise_if-eq-ok, ok-injective, same, same_iff, same_of, nat_eq, Occurs, All, lookup, insert,
  lookup-insert, keys, length, is_unique, contains, Bool-cases, ◌==◌, string_eq, ◌≡◌, refl, ap, sym,
  ◌∙◌, inl, inr, arith,
}
use agent_loop_gate.Schemas.{Pool, pool_eq, ArtifactId, NonEmpty}
use agent_loop_gate.Splits.Service.{
  SplitError, PoolManifest, PoolSpec, TaskDescriptor, Loaded, task_ids, unclaimed, claim_tasks,
  load_manifest, load_pool, load_pools,
}

unclaimed-none :
    (t : ArtifactId) (p : Pool) (o : Option Pool) {u : Unit {0}} → unclaimed t p o ≡ ok u → o ≡ none
unclaimed-none t p none h = refl
unclaimed-none t p (some q) h = cc

-- A claim keeps what was claimed before, and adds the pool's tasks.
claim_tasks-keeps :
    (p q : Pool) (ts : List TaskDescriptor) (owner : List (ArtifactId × Pool)) (t : ArtifactId)
    {owner' : List (ArtifactId × Pool)}
    → claim_tasks p ts owner ≡ ok owner'
    → lookup t owner ≡ some q
    → lookup t owner' ≡ some q
unfolding claim_tasks
claim_tasks-keeps p q [] owner t h e = ap (lookup t) (sym (ok-injective h)) ∙ e
claim_tasks-keeps p q (x ∷ ts) owner t h e =
    let (u, free, rest) = >>=-eq-ok (unclaimed x.task_id p (lookup x.task_id owner)) _ h in
    let fresh = unclaimed-none x.task_id p _ free in
    claim_tasks-keeps p q ts (insert x.task_id p owner) t rest
      (ground (arith, lookup-insert x.task_id t p owner, same_iff t x.task_id))

claim_tasks-adds :
    (p : Pool) (ts : List TaskDescriptor) (owner : List (ArtifactId × Pool)) (t : ArtifactId)
    {owner' : List (ArtifactId × Pool)}
    → claim_tasks p ts owner ≡ ok owner'
    → Occurs t (task_ids ts)
    → lookup t owner' ≡ some p
unfolding claim_tasks
claim_tasks-adds p [] owner t h o = elim o [ ]
claim_tasks-adds p (x ∷ ts) owner t h (inl e) =
    let (u, free, rest) = >>=-eq-ok (unclaimed x.task_id p (lookup x.task_id owner)) _ h in
    claim_tasks-keeps p p ts (insert x.task_id p owner) t rest
      (ground (arith, lookup-insert x.task_id t p owner, same_iff t x.task_id))
claim_tasks-adds p (x ∷ ts) owner t h (inr o) =
    let (u, free, rest) = >>=-eq-ok (unclaimed x.task_id p (lookup x.task_id owner)) _ h in
    claim_tasks-adds p ts (insert x.task_id p owner) t rest o

-- Every loaded task is owned by its pool.
abbrev pub IsOwned : Loaded → Type 0
IsOwned l =
    (p : Pool) (m : PoolManifest) (t : ArtifactId)
    → lookup p l.manifests ≡ some m
    → Occurs t (task_ids m.tasks)
    → lookup t l.task_owner ≡ some p

-- A loaded pool has the size and the commit that the split demands.
abbrev pub IsSized : NonEmpty → List (Pool × PoolManifest) → Pool × ℕ → Type 0
IsSized commit ms (p, n) =
    (m : PoolManifest) × (lookup p ms ≡ some m)
    × (m.pool ≡ p)
    × (m.benchmark_commit ≡ commit)
    × (length m.tasks ≡ n)

module _ (read_manifest : NonEmpty → Result SplitError PoolManifest)
    (escapes_root : NonEmpty → Bool) where
  load_pool_lem :
      (commit : NonEmpty) (l : Loaded) (p : Pool) (n : ℕ) (o : Option PoolSpec) {l' : Loaded}
      → load_pool read_manifest escapes_root commit l p n o ≡ ok l'
      → (m : PoolManifest) × (m.pool ≡ p)
        × (m.benchmark_commit ≡ commit)
        × (length m.tasks ≡ n)
        × (l'.manifests ≡ insert p m l.manifests)
        × (claim_tasks p m.tasks l.task_owner ≡ ok l'.task_owner)
  unfolding load_pool
  load_pool_lem commit l p n none h = cc
  load_pool_lem commit l p n (some spec) h =
      let (c, h1) = raise_if-eq-ok (not (spec.expected_count == n)) _ _ h in
      let (m, e, h2) = >>=-eq-ok (load_manifest read_manifest escapes_root spec.manifest) _ h1 in
      let (c2, h3) = raise_if-eq-ok (not (same m.pool p)) _ _ h2 in
      let (c3, h4) = raise_if-eq-ok (not (same m.benchmark_commit commit)) _ _ h3 in
      let (c4, h5) = raise_if-eq-ok (not (length m.tasks == n)) _ _ h4 in
      let (owner, k, h6) = >>=-eq-ok (claim_tasks p m.tasks l.task_owner) _ h5 in
      (
        m,
        same_of _ _ c2,
        same_of _ _ c3,
        same_of _ _ c4,
        ap (λ (x : Loaded). x.manifests) (sym (ok-injective h6)),
        k ∙ ap (λ (x : Loaded). ok x.task_owner) (ok-injective h6),
      )

  load_pool-IsOwned :
      (commit : NonEmpty) (l l' : Loaded) (p : Pool) (n : ℕ) (o : Option PoolSpec)
      → load_pool read_manifest escapes_root commit l p n o ≡ ok l'
      → IsOwned l
      → IsOwned l'
  load_pool-IsOwned commit l l' p n o h owned q m t e i =
      let (m', _, _, _, manifests, claimed) = load_pool_lem commit l p n o h in
      let found = ap (lookup q) (sym manifests) ∙ e in
      elim (Bool-cases (same q p)) [
        | inl s ↦
            let r : m' ≡ m = ground (arith, lookup-insert p q m' l.manifests) in
            let owner =
              claim_tasks-adds p m'.tasks l.task_owner t claimed
                (subst (λ (x : PoolManifest). Occurs t (task_ids x.tasks)) (sym r) i) in
            owner ∙ ap some (sym ((same_iff q p).0 s))
        | inr s ↦
            let r : lookup q l.manifests ≡ some m =
              ground (arith, lookup-insert p q m' l.manifests) in
            claim_tasks-keeps p q m'.tasks l.task_owner t claimed (owned q m t r i)
      ]

  pub load_pools-IsOwned :
      (commit : NonEmpty) (pools : List (Pool × PoolSpec)) (l l' : Loaded) (rest : List (Pool × ℕ))
      → load_pools read_manifest escapes_root commit pools l rest ≡ ok l'
      → IsOwned l
      → IsOwned l'
  unfolding load_pools
  load_pools-IsOwned commit pools l l' [] h owned = subst IsOwned (ok-injective h) owned
  load_pools-IsOwned commit pools l l' ((p, n) ∷ rest) h owned =
      let (next, e, k) =
        >>=-eq-ok (load_pool read_manifest escapes_root commit l p n (lookup p pools)) _ h in
      load_pools-IsOwned commit pools next l' rest k
        (load_pool-IsOwned commit l next p n (lookup p pools) e owned)

  load_pools-keeps :
      (commit : NonEmpty) (pools : List (Pool × PoolSpec)) (l l' : Loaded) (rest : List (Pool × ℕ))
      (q : Pool) (m : PoolManifest)
      → load_pools read_manifest escapes_root commit pools l rest ≡ ok l'
      → contains q (keys rest) ≡ false
      → lookup q l.manifests ≡ some m
      → lookup q l'.manifests ≡ some m
  unfolding load_pools
  load_pools-keeps commit pools l l' [] q m h c e =
      ap (λ (x : Loaded). lookup q x.manifests) (sym (ok-injective h)) ∙ e
  load_pools-keeps commit pools l l' ((p, n) ∷ rest) q m h c e =
      let (next, s, k) =
        >>=-eq-ok (load_pool read_manifest escapes_root commit l p n (lookup p pools)) _ h in
      let (m', _, _, _, manifests, claimed) = load_pool_lem commit l p n (lookup p pools) s in
      let kept : lookup q (insert p m' l.manifests) ≡ some m =
        ground (arith, lookup-insert p q m' l.manifests) in
      load_pools-keeps commit pools next l' rest q m k (ground arith)
        (ap (lookup q) manifests ∙ kept)

  pub load_pools-IsSized :
      (commit : NonEmpty) (pools : List (Pool × PoolSpec)) (l l' : Loaded) (rest : List (Pool × ℕ))
      → load_pools read_manifest escapes_root commit pools l rest ≡ ok l'
      → is_unique (keys rest) ≡ true
      → All (IsSized commit l'.manifests) rest
  unfolding load_pools
  load_pools-IsSized commit pools l l' [] h u = tt
  load_pools-IsSized commit pools l l' ((p, n) ∷ rest) h u =
      let (next, s, k) =
        >>=-eq-ok (load_pool read_manifest escapes_root commit l p n (lookup p pools)) _ h in
      let (m, e1, e2, e3, manifests, claimed) = load_pool_lem commit l p n (lookup p pools) s in
      let here : lookup p (insert p m l.manifests) ≡ some m =
        ground (arith, lookup-insert p p m l.manifests, same_iff p p) in
      (
        (
          m,
          load_pools-keeps commit pools next l' rest p m k (ground arith)
              (ap (lookup p) manifests ∙ here),
          e1,
          e2,
          e3,
        ),
        load_pools-IsSized commit pools next l' rest k (ground arith),
      )
