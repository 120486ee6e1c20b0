-- ===== src/Splits/Service/Freeze.antt =====
-- A frozen split verifies: `freeze` and `verify` agree on the digests and on the manifests.
use mathlib.Core.Path.{subst}
use agent_loop_gate.Base.{
  ℕ, Bool, true, false, not, Option, none, some, List, [], ◌∷◌, Result, ok, raise_if, ◌>>◌, ◌>>=◌,
  >>=-eq-ok, >>=-cong, raise_if-eq-ok, ok-injective, same, lookup, keys, same_set, eq_iff, str_eq,
  ◌≡◌, refl, ap, sym, ◌∙◌, if◌then◌else◌,
}
use agent_loop_gate.Schemas.{Pool, pool_eq, Digest, NonEmpty, UtcDateTime}
use agent_loop_gate.Splits.Service.{
  SplitConfig, SplitStatus, draft, frozen, SplitError, SplitPayload, payload, PoolManifest,
  PoolSpec, Loaded, manifest_of, load_pool, load_pools, check_manifests, load_and_validate,
  attach_digests, verify_digests, same_digest, verify_frozen, verify, sealed, freeze_status, freeze,
  expected_pool_counts,
}

-- The two entries name the same file and count.
abbrev SameSpec : Option PoolSpec → Option PoolSpec → Type 0
SameSpec none none = Unit
SameSpec (some a) (some b) = (a.manifest ≡ b.manifest) × (a.expected_count ≡ b.expected_count)
SameSpec _ _ = ⊥

SameSpec-if :
    (c : Bool) (s s' : PoolSpec) (a b : Option PoolSpec)
    → SameSpec (some s) (some s')
    → SameSpec a b
    → SameSpec (if c then some s else a) (if c then some s' else b)
SameSpec-if true s s' a b h k = h
SameSpec-if false s s' a b h k = k

all_checked :
    {M : Type 0} {m : Result SplitError M} {ms : M} (checks : M → Result SplitError (Unit {0}))
    {b : Bool} (c : SplitConfig)
    → m ≡ ok ms
    → checks ms ≡ ok tt
    → b ≡ true
    → (m >>= λ x. checks x >> (raise_if (not b) SplitError.config_digest_mismatch >> ok c)) ≡ ok c
all_checked checks c h k l = rw (h, k, l)

module _ (read_manifest : NonEmpty → Result SplitError PoolManifest)
    (escapes_root : NonEmpty → Bool) where
  abbrev no_tasks : Loaded
  no_tasks = record { manifests = []; task_owner = [] }

  -- The checks of `load_and_validate`, from the names of the pools and what was read of them.
  abbrev loading :
      SplitConfig
      → List Pool
      → Result SplitError Loaded
      → Result SplitError (List (Pool × PoolManifest))
  unfolding check_manifests
  loading c names read = do
    raise_if (str_eq c.benchmark.commit "PIN_BEFORE_PILOT") SplitError.commit_not_pinned
    raise_if (not (same_set names (keys expected_pool_counts))) SplitError.pools_not_exact
    l ← read
    check_manifests c l.manifests
    ok l.manifests

  load_pool-SameSpec :
      (commit : NonEmpty) (l : Loaded) (p : Pool) (n : ℕ) (a b : Option PoolSpec)
      → SameSpec a b
      → load_pool read_manifest escapes_root commit l p n a
        ≡ load_pool read_manifest escapes_root commit l p n b
  unfolding load_pool
  load_pool-SameSpec commit l p n none none h = refl
  load_pool-SameSpec commit l p n none (some b) h = elim h [ ]
  load_pool-SameSpec commit l p n (some a) none h = elim h [ ]
  load_pool-SameSpec commit l p n (some a) (some b) h = rw (h.0, h.1)

  load_pools-SameSpec :
      (commit : NonEmpty) (pools pools' : List (Pool × PoolSpec)) (l : Loaded)
      (rest : List (Pool × ℕ))
      → ((p : Pool) → SameSpec (lookup p pools) (lookup p pools'))
      → load_pools read_manifest escapes_root commit pools l rest
        ≡ load_pools read_manifest escapes_root commit pools' l rest
  unfolding load_pools
  load_pools-SameSpec commit pools pools' l [] h = refl
  load_pools-SameSpec commit pools pools' l ((p, n) ∷ rest) h =
      ap
        (λ (m : Result SplitError Loaded).
          m >>= λ next. load_pools read_manifest escapes_root commit pools next rest)
        (load_pool-SameSpec commit l p n (lookup p pools) (lookup p pools') (h p))
      ∙ >>=-cong (load_pool read_manifest escapes_root commit l p n (lookup p pools')) _ _
          (λ next. load_pools-SameSpec commit pools pools' next rest h)

  module _ (manifest_digest : PoolManifest → Digest) (config_digest : SplitPayload → Digest) where
    attach_digests-SameSpec :
        (ms : List (Pool × PoolManifest)) (pools : List (Pool × PoolSpec))
        {pools' : List (Pool × PoolSpec)}
        → attach_digests read_manifest escapes_root manifest_digest config_digest ms pools
          ≡ ok pools'
        → (keys pools ≡ keys pools') × ((p : Pool) → SameSpec (lookup p pools) (lookup p pools'))
    unfolding attach_digests
    attach_digests-SameSpec ms [] h =
        subst
          (λ ps. (◌≡◌ {A = List Pool} [] (keys ps)) × ((p : Pool) → SameSpec none (lookup p ps)))
          (ok-injective h) (refl, λ p. tt)
    attach_digests-SameSpec ms ((p, spec) ∷ pools) h =
        let (m, e, h1) = >>=-eq-ok (manifest_of p ms) _ h in
        let (rest, k, h2) =
          >>=-eq-ok
            (attach_digests read_manifest escapes_root manifest_digest config_digest ms pools) _
            h1 in
        let ih = attach_digests-SameSpec ms pools k in
        subst
          (λ ps.
            (p ∷ keys pools ≡ keys ps)
            × ((q : Pool) → SameSpec (lookup q ((p, spec) ∷ pools)) (lookup q ps)))
          (ok-injective h2)
          (
            ap (λ ks. p ∷ ks) ih.0,
            λ q.
                SameSpec-if (same q p) spec
                  (record spec { manifest_digest = some (manifest_digest m) }) _ _ (refl, refl)
                  (ih.1 q),
          )

    -- The digests that were attached are those that `verify` computes.
    verify_digests-attach_digests :
        (ms : List (Pool × PoolManifest)) (pools : List (Pool × PoolSpec))
        {pools' : List (Pool × PoolSpec)}
        → attach_digests read_manifest escapes_root manifest_digest config_digest ms pools
          ≡ ok pools'
        → verify_digests read_manifest escapes_root manifest_digest config_digest ms pools' ≡ ok tt
    unfolding attach_digests verify_digests
    verify_digests-attach_digests ms [] h =
        subst
          (λ ps.
            verify_digests read_manifest escapes_root manifest_digest config_digest ms ps ≡ ok tt)
          (ok-injective h) refl
    verify_digests-attach_digests ms ((p, spec) ∷ pools) h =
        let (m, e, h1) = >>=-eq-ok (manifest_of p ms) _ h in
        let (rest, k, h2) =
          >>=-eq-ok
            (attach_digests read_manifest escapes_root manifest_digest config_digest ms pools) _
            h1 in
        subst
          (λ ps.
            verify_digests read_manifest escapes_root manifest_digest config_digest ms ps ≡ ok tt)
          (ok-injective h2)
          (ap
              (λ (x : Result SplitError PoolManifest). x >>= λ m'.
                raise_if
                  (not (
                    same_digest read_manifest escapes_root manifest_digest config_digest
                      (some (manifest_digest m)) (manifest_digest m')))
                  (SplitError.digest_mismatch p)
                >> verify_digests read_manifest escapes_root manifest_digest config_digest ms rest)
              e
            ∙ ap
                (λ (b : Bool).
                  raise_if (not b) (SplitError.digest_mismatch p)
                  >> verify_digests read_manifest escapes_root manifest_digest config_digest ms
                      rest)
                ((eq_iff (manifest_digest m) (manifest_digest m)).1 refl)
            ∙ verify_digests-attach_digests ms pools k)

    -- Sealing a configuration leaves alone all that `load_and_validate` reads.
    load_and_validate-sealed :
        (c : SplitConfig) (t : UtcDateTime) (pools : List (Pool × PoolSpec))
        → keys c.pools ≡ keys pools
        → ((p : Pool) → SameSpec (lookup p c.pools) (lookup p pools))
        → load_and_validate read_manifest escapes_root c
          ≡ load_and_validate read_manifest escapes_root
              (sealed read_manifest escapes_root manifest_digest config_digest c t pools)
    unfolding load_and_validate check_manifests
    load_and_validate-sealed c t pools ks h =
        ap
          (λ names. loading c names (
            load_pools read_manifest escapes_root c.benchmark.commit c.pools no_tasks
              expected_pool_counts))
          ks
        ∙ ap (loading c (keys pools))
            (load_pools-SameSpec c.benchmark.commit c.pools pools no_tasks expected_pool_counts h)

    verify_frozen-same :
        (c : SplitConfig) (s : SplitStatus) (a : Option UtcDateTime) (d : Option Digest)
        {f : SplitConfig}
        → verify_frozen read_manifest escapes_root manifest_digest config_digest c s a d ≡ ok f
        → c ≡ f
    verify_frozen-same c frozen (some t) (some d) h =
        let (ms, e, h1) = >>=-eq-ok (load_and_validate read_manifest escapes_root c) _ h in
        let (u, e2, h2) =
          >>=-eq-ok
            (verify_digests read_manifest escapes_root manifest_digest config_digest ms c.pools) _
            h1 in
        ok-injective ((raise_if-eq-ok _ _ _ h2).1)
    verify_frozen-same c frozen none d h = cc
    verify_frozen-same c frozen (some t) none h = cc
    verify_frozen-same c draft a d h = cc

    verify-sealed :
        (c : SplitConfig) (t : UtcDateTime) (pools : List (Pool × PoolSpec))
        {ms : List (Pool × PoolManifest)}
        → load_and_validate read_manifest escapes_root c ≡ ok ms
        → attach_digests read_manifest escapes_root manifest_digest config_digest ms c.pools
          ≡ ok pools
        → verify read_manifest escapes_root manifest_digest config_digest
            (sealed read_manifest escapes_root manifest_digest config_digest c t pools)
          ≡ ok (sealed read_manifest escapes_root manifest_digest config_digest c t pools)
    unfolding verify
    verify-sealed c t pools {ms = ms} h k =
        let digest =
          config_digest
            (payload (sealed read_manifest escapes_root manifest_digest config_digest c t pools)) in
        let specs = attach_digests-SameSpec ms c.pools k in
        let loaded : load_and_validate read_manifest escapes_root
              (sealed read_manifest escapes_root manifest_digest config_digest c t pools)
            ≡ ok ms =
          sym (load_and_validate-sealed c t pools specs.0 specs.1) ∙ h in
        let checked = verify_digests-attach_digests ms c.pools k in
        all_checked
          (λ x. verify_digests read_manifest escapes_root manifest_digest config_digest x pools)
          (sealed read_manifest escapes_root manifest_digest config_digest c t pools) loaded checked
          ((eq_iff digest digest).1 refl)

    freeze_status-verify :
        (c : SplitConfig) (t : UtcDateTime) (s : SplitStatus) {f : SplitConfig}
        → freeze_status read_manifest escapes_root manifest_digest config_digest c t s ≡ ok f
        → verify read_manifest escapes_root manifest_digest config_digest f ≡ ok f
    unfolding verify
    freeze_status-verify c t frozen {f = f} h =
        subst (λ x. verify read_manifest escapes_root manifest_digest config_digest x ≡ ok f)
          (verify_frozen-same c c.status c.frozen_at c.split_digest h) h
    freeze_status-verify c t draft h =
        let (ms, e, h1) = >>=-eq-ok (load_and_validate read_manifest escapes_root c) _ h in
        let (pools, k, h2) =
          >>=-eq-ok
            (attach_digests read_manifest escapes_root manifest_digest config_digest ms c.pools) _
            h1 in
        subst (λ x. verify read_manifest escapes_root manifest_digest config_digest x ≡ ok x)
          (ok-injective h2) (verify-sealed c t pools e k)

    -- The configuration that `freeze` returns is one that `verify` accepts and returns
    -- unchanged.
    pub verify-freeze :
        (c : SplitConfig) (t : UtcDateTime) {f : SplitConfig}
        → freeze read_manifest escapes_root manifest_digest config_digest c t ≡ ok f
        → verify read_manifest escapes_root manifest_digest config_digest f ≡ ok f
    unfolding freeze
    verify-freeze c t h = freeze_status-verify c t c.status h
