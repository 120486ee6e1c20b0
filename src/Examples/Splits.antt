-- ===== src/Examples/Splits.antt =====
-- The splits and their access at concrete inputs.
use Prim.Native.String.{◌++◌ as str_append}
use agent_loop_gate.Base.{
  err, str_eq, if◌then◌else◌, ℕ, zero, suc, String, Bool, false, none, List, [], ◌∷◌, ◌++◌, Result,
  ok, value_of, ◌≡◌, ◌↔◌, ◌⊎◌, inl, refl,
}
use agent_loop_gate.Schemas.{
  Pool, pilot, update_source, update_check, selection, release_id, release_ood, Digest, NonEmpty,
}
use agent_loop_gate.Splits.Access.{
  owner, release_evaluator, reporter, aggregate, require, release_access_iff, aggregate_is_least,
}
use agent_loop_gate.Splits.Service.{
  TaskDescriptor, PoolManifest, PoolSpec, SplitConfig, SplitPayload, SplitError, draft, task_ids,
  load_and_validate, freeze, verify,
}
use agent_loop_gate.Splits.Service.Partition.{IsPartition, load_and_validate-IsPartition}
use agent_loop_gate.Splits.Service.Freeze.{verify-freeze}

release_access_iff_example : (require reporter release_id aggregate ≡ ok tt) ↔ (
    (reporter ≡ owner)
    ⊎ ((reporter ≡ release_evaluator) ⊎ ((reporter ≡ reporter) × (aggregate ≡ aggregate))))
release_access_iff_example = release_access_iff reporter release_id aggregate (inl refl)

evaluator_reads : require release_evaluator release_id aggregate ≡ ok tt
unfolding require
evaluator_reads = refl

aggregate_is_least_example : require release_evaluator release_id aggregate ≡ ok tt
aggregate_is_least_example =
    aggregate_is_least release_evaluator release_id aggregate evaluator_reads

-- Tasks `p`, `px`, `pxx`, …
unfoldable tasks_from : String → String → ℕ → List TaskDescriptor
tasks_from name family zero = []
tasks_from name family (suc n) =
    (record {
      task_id = name;
      workflow_family = family;
      high_risk = false;
      document_count = 1;
      tool_complexity = 1;
    })
    ∷ tasks_from (str_append name "x") family n

abbrev manifest_for : Pool → List TaskDescriptor → PoolManifest
manifest_for p tasks = record { pool = p; benchmark_commit = "abc"; tasks = tasks }

-- The manifest files.
unfoldable read_manifest : NonEmpty → Result SplitError PoolManifest
unfolding tasks_from
read_manifest path =
    if str_eq path "pilot"
    then ok (manifest_for pilot (tasks_from "p" "f" 7))
    else if str_eq path "source"
    then ok (manifest_for update_source (tasks_from "u" "f" 25))
    else if str_eq path "check"
    then ok (manifest_for update_check (tasks_from "c" "f" 10))
    else if str_eq path "selection"
    then ok (manifest_for selection (tasks_from "s" "f" 15))
    else if str_eq path "id"
    then ok (manifest_for release_id (tasks_from "i" "f" 20))
    else if str_eq path "ood"
    then ok (manifest_for release_ood (tasks_from "o" "g" 10 ++ tasks_from "q" "h" 10))
    else err (SplitError.unreadable_manifest path)

abbrev escapes_root : NonEmpty → Bool
escapes_root path = false

abbrev spec : NonEmpty → ℕ → PoolSpec
spec path n = record { manifest = path; expected_count = n; manifest_digest = none }

unfoldable config : SplitConfig
unfolding tasks_from
config = record {
  benchmark = record { name = "tau"; commit = "abc" };
  status = draft;
  frozen_at = none;
  split_digest = none;
  pools =
      (pilot, spec "pilot" 7)
      ∷ (update_source, spec "source" 25)
      ∷ (update_check, spec "check" 10)
      ∷ (selection, spec "selection" 15)
      ∷ (release_id, spec "id" 20)
      ∷ (release_ood, spec "ood" 20)
      ∷ [];
  replay_task_ids = task_ids (tasks_from "u" "f" 10);
}

unfoldable manifests : List (Pool × PoolManifest)
unfolding load_and_validate read_manifest config
manifests = value_of (load_and_validate read_manifest escapes_root config) tt

config-loads : load_and_validate read_manifest escapes_root config ≡ ok manifests
unfolding load_and_validate read_manifest manifests config
config-loads = refl

load_and_validate-IsPartition_example : IsPartition config manifests
load_and_validate-IsPartition_example =
    load_and_validate-IsPartition read_manifest escapes_root config config-loads

abbrev manifest_digest : PoolManifest → Digest
manifest_digest m = m.benchmark_commit

abbrev config_digest : SplitPayload → Digest
config_digest p = p.benchmark.name

unfoldable frozen_config : SplitConfig
unfolding freeze read_manifest config
frozen_config =
    value_of (freeze read_manifest escapes_root manifest_digest config_digest config "t0") tt

config-freezes :
    freeze read_manifest escapes_root manifest_digest config_digest config "t0" ≡ ok frozen_config
unfolding freeze read_manifest frozen_config config
config-freezes = refl

verify-freeze_example :
    verify read_manifest escapes_root manifest_digest config_digest frozen_config ≡ ok frozen_config
verify-freeze_example =
    verify-freeze read_manifest escapes_root manifest_digest config_digest config "t0"
      config-freezes
