-- ===== src/Splits/Service.antt =====
-- Freezing and verifying the split: `SplitService` of agentloopgate/splits/service.py, with the
-- records of agentloopgate/splits/models.py. Reading a manifest file, the test of its path, and
-- SHA-256 over canonical JSON are parameters.
pub mod Loading
pub mod Partition
pub mod Freeze
use agent_loop_gate.Base.{
  ℕ, suc, ◌+◌, String, Bool, true, false, not, ◌&&◌, ◌||◌, Option, none, some, List, [], ◌∷◌, ◌++◌,
  map, Result, ok, err, raise_if, ◌>>◌, ◌>>=◌, leb, ltb, ◌==◌, same, Eq, eq_of_discrete, str_eq,
  string_eq, same_set, is_subset, is_unique, contains, any, lookup, insert, keys, length, filter,
  if◌then◌else◌,
}
use agent_loop_gate.Schemas.{
  Pool, pilot, update_source, update_check, selection, release_id, release_ood, pool_eq, ArtifactId,
  Digest, NonEmpty, UtcDateTime,
}

pub data SplitStatus : Type 0 where
  draft frozen : SplitStatus

pub record TaskDescriptor : Type 0 where
  pub task_id : ArtifactId
  pub workflow_family : ArtifactId
  pub high_risk : Bool
  pub document_count : ℕ
  pub tool_complexity : ℕ

pub record PoolManifest : Type 0 where
  pub pool : Pool
  pub benchmark_commit : NonEmpty
  pub tasks : List TaskDescriptor

pub record SplitBenchmark : Type 0 where
  pub name : NonEmpty
  pub commit : NonEmpty

pub record PoolSpec : Type 0 where
  pub manifest : NonEmpty
  pub expected_count : ℕ
  pub manifest_digest : Option Digest

pub record SplitConfig : Type 0 where
  pub benchmark : SplitBenchmark
  pub status : SplitStatus
  pub frozen_at : Option UtcDateTime
  pub split_digest : Option Digest
  pub pools : List (Pool × PoolSpec)
  pub replay_task_ids : List ArtifactId

-- `model_dump(mode="json", exclude={"split_digest"})`
pub record SplitPayload : Type 0 where
  pub benchmark : SplitBenchmark
  pub status : SplitStatus
  pub frozen_at : Option UtcDateTime
  pub pools : List (Pool × PoolSpec)
  pub replay_task_ids : List ArtifactId

abbrev pub payload : SplitConfig → SplitPayload
payload c = record {
  benchmark = c.benchmark;
  status = c.status;
  frozen_at = c.frozen_at;
  pools = c.pools;
  replay_task_ids = c.replay_task_ids;
}

-- `SplitIntegrityError`, by its messages, and the `KeyError` of a missing pool.
pub data SplitError : Type 0 where
  unreadable_manifest invalid_manifest path_escapes : NonEmpty → SplitError
  commit_not_pinned pools_not_exact replay_not_ten_unique replay_not_from_source : SplitError
  families_not_two_or_three families_not_reserved not_frozen config_digest_mismatch : SplitError
  count_changed pool_mismatch commit_mismatch wrong_size digest_mismatch missing_pool :
      Pool → SplitError
  task_in_two_pools : ArtifactId → Pool → Pool → SplitError

-- `EXPECTED_POOL_COUNTS`
abbrev pub expected_pool_counts : List (Pool × ℕ)
expected_pool_counts =
    (pilot, 7)
    ∷ (update_source, 25)
    ∷ (update_check, 10)
    ∷ (selection, 15)
    ∷ (release_id, 20)
    ∷ (release_ood, 20)
    ∷ []

abbrev pub task_ids : List TaskDescriptor → List ArtifactId
task_ids = map (λ (t : TaskDescriptor). t.task_id)

abbrev pub families : List TaskDescriptor → List ArtifactId
families = map (λ (t : TaskDescriptor). t.workflow_family)

-- The test on a task's previous owner.
abbrev unclaimed : ArtifactId → Pool → Option Pool → Result SplitError (Unit {0})
unclaimed t p none = ok tt
unclaimed t p (some q) = err (task_in_two_pools t q p)

-- The loop over the tasks of one pool, on `task_owner`.
unfoldable pub claim_tasks :
    Pool
    → List TaskDescriptor
    → List (ArtifactId × Pool)
    → Result SplitError (List (ArtifactId × Pool))
claim_tasks p [] owner = ok owner
claim_tasks p (t ∷ ts) owner = do
  unclaimed t.task_id p (lookup t.task_id owner)
  claim_tasks p ts (insert t.task_id p owner)

-- The two locals of the loop over the pools.
pub record Loaded : Type 0 where
  pub manifests : List (Pool × PoolManifest)
  pub task_owner : List (ArtifactId × Pool)

-- `len(set(xs))`
abbrev pub set_size : List ArtifactId → ℕ
set_size [] = 0
set_size (x ∷ xs) = if contains x xs then set_size xs else suc (set_size xs)

-- `manifests[pool]`
abbrev pub manifest_of : Pool → List (Pool × PoolManifest) → Result SplitError PoolManifest
manifest_of p ms = elim (lookup p ms) [ none ↦ err (missing_pool p) | some m ↦ ok m ]

-- The families of every pool but the OOD release pool.
abbrev pub other_families : List (Pool × PoolManifest) → List ArtifactId
other_families [] = []
other_families ((p, m) ∷ ms) =
    if same p release_ood then other_families ms else families m.tasks ++ other_families ms

unfoldable pub check_replay : List ArtifactId → List ArtifactId → Result SplitError (Unit {0})
check_replay replay source_ids = do
  raise_if (not (length replay == 10) || not (is_unique replay)) replay_not_ten_unique
  raise_if (not (is_subset replay source_ids)) replay_not_from_source
  ok tt

unfoldable pub check_families : List ArtifactId → List ArtifactId → Result SplitError (Unit {0})
check_families ood others = do
  raise_if (not (leb 2 (set_size ood) && leb (set_size ood) 3)) families_not_two_or_three
  raise_if (any (λ f. contains f others) ood) families_not_reserved
  ok tt

-- The tests on the replay tasks and on the workflow families.
unfoldable pub check_manifests :
    SplitConfig → List (Pool × PoolManifest) → Result SplitError (Unit {0})
unfolding check_replay check_families
check_manifests c ms = do
  source ← manifest_of update_source ms
  check_replay c.replay_task_ids (task_ids source.tasks)
  ood ← manifest_of release_ood ms
  check_families (families ood.tasks) (other_families ms)

module _ (read_manifest : NonEmpty → Result SplitError PoolManifest)
    (escapes_root : NonEmpty → Bool) where
  -- `_load_manifest`, with the validator of `PoolManifest`.
  unfoldable pub load_manifest : NonEmpty → Result SplitError PoolManifest
  load_manifest path = do
    raise_if (escapes_root path) (path_escapes path)
    m ← read_manifest path
    raise_if (not (is_unique (task_ids m.tasks))) (invalid_manifest path)
    ok m

  -- The body of the loop over the pools, at the pool's entry of the configuration.
  unfoldable pub load_pool :
      NonEmpty → Loaded → Pool → ℕ → Option PoolSpec → Result SplitError Loaded
  unfolding load_manifest claim_tasks
  load_pool commit l p n none = err (missing_pool p)
  load_pool commit l p n (some spec) = do
    raise_if (not (spec.expected_count == n)) (count_changed p)
    m ← load_manifest spec.manifest
    raise_if (not (same m.pool p)) (pool_mismatch p)
    raise_if (not (str_eq m.benchmark_commit commit)) (commit_mismatch p)
    raise_if (not (length m.tasks == n)) (wrong_size p)
    owner ← claim_tasks p m.tasks l.task_owner
    ok (record { manifests = insert p m l.manifests; task_owner = owner })

  unfoldable pub load_pools :
      NonEmpty → List (Pool × PoolSpec) → Loaded → List (Pool × ℕ) → Result SplitError Loaded
  unfolding load_pool
  load_pools commit pools l [] = ok l
  load_pools commit pools l ((p, n) ∷ rest) = do
    next ← load_pool commit l p n (lookup p pools)
    load_pools commit pools next rest

  -- `_load_and_validate`
  unfoldable pub load_and_validate : SplitConfig → Result SplitError (List (Pool × PoolManifest))
  unfolding load_pools check_manifests
  load_and_validate c = do
    raise_if (str_eq c.benchmark.commit "PIN_BEFORE_PILOT") commit_not_pinned
    raise_if (not (same_set (keys c.pools) (keys expected_pool_counts))) pools_not_exact
    l ←
        load_pools c.benchmark.commit c.pools (record { manifests = []; task_owner = [] })
          expected_pool_counts
    check_manifests c l.manifests
    ok l.manifests

  module _ (manifest_digest : PoolManifest → Digest) (config_digest : SplitPayload → Digest) where
    -- The new entries of the configuration, with the digest of each manifest.
    unfoldable pub attach_digests :
        List (Pool × PoolManifest)
        → List (Pool × PoolSpec)
        → Result SplitError (List (Pool × PoolSpec))
    attach_digests ms [] = ok []
    attach_digests ms ((p, spec) ∷ pools) = do
      m ← manifest_of p ms
      rest ← attach_digests ms pools
      ok ((p, record spec { manifest_digest = some (manifest_digest m) }) ∷ rest)

    abbrev same_digest : Option Digest → Digest → Bool
    same_digest none d = false
    same_digest (some e) d = str_eq e d

    -- The loop of `verify` over the pools.
    unfoldable pub verify_digests :
        List (Pool × PoolManifest) → List (Pool × PoolSpec) → Result SplitError (Unit {0})
    verify_digests ms [] = ok tt
    verify_digests ms ((p, spec) ∷ pools) = do
      m ← manifest_of p ms
      raise_if (not (same_digest spec.manifest_digest (manifest_digest m))) (digest_mismatch p)
      verify_digests ms pools

    abbrev verify_frozen :
        SplitConfig
        → SplitStatus
        → Option UtcDateTime
        → Option Digest
        → Result SplitError SplitConfig
    verify_frozen c frozen (some t) (some d) = do
      ms ← load_and_validate c
      verify_digests ms c.pools
      raise_if (not (str_eq (config_digest (payload c)) d)) config_digest_mismatch
      ok c
    verify_frozen c _ _ _ = err not_frozen

    -- `verify`, on the configuration that `load` read.
    unfoldable pub verify : SplitConfig → Result SplitError SplitConfig
    unfolding load_and_validate verify_digests
    verify c = verify_frozen c c.status c.frozen_at c.split_digest

    abbrev sealed : SplitConfig → UtcDateTime → List (Pool × PoolSpec) → SplitConfig
    sealed c t pools =
        let pending = record c {
          status = frozen;
          frozen_at = some t;
          split_digest = none;
          pools = pools;
        } in
        record pending { split_digest = some (config_digest (payload pending)) }

    abbrev freeze_status : SplitConfig → UtcDateTime → SplitStatus → Result SplitError SplitConfig
    freeze_status c t frozen = verify c
    freeze_status c t draft = do
      ms ← load_and_validate c
      pools ← attach_digests ms c.pools
      ok (sealed c t pools)

    -- `freeze`, which writes the configuration that it returns.
    unfoldable pub freeze : SplitConfig → UtcDateTime → Result SplitError SplitConfig
    unfolding verify attach_digests
    freeze c t = freeze_status c t c.status
