-- ===== src/Examples/Snapshots.antt =====
-- Activation, recovery and rollback of snapshots at concrete inputs.
use Prim.Native.String.{◌++◌ as str_append}
use agent_loop_gate.Base.{
  string_eq, String, Bool, true, none, some, List, [], ◌∷◌, ok, value_of, ◌≡◌, refl,
}
use agent_loop_gate.Schemas.{Digest, RuntimeHost}
use agent_loop_gate.Snapshots.Models.{
  SnapshotManifest, SnapshotActivation, PromotionApproval, ApprovalAction, to_baseline, to_promote,
  Store,
}
use agent_loop_gate.Snapshots.Manager.{write_journal, verify, rollback_to}
use agent_loop_gate.Snapshots.Rollback.{IsActive, rollback_to-IsActive}

abbrev is_safe_id : String → Bool
is_safe_id id = true

abbrev file_digest : String → Digest
file_digest content = str_append "sha256:" content

-- The paths of this project are all in one directory.
abbrev parents : String → List String
parents path = "harness" ∷ []

-- A cut-off write leaves a temporary file with other bytes.
abbrev torn : String → List (String × String) → List (String × String)
torn path live = (str_append path ".alg.tmp", "?") ∷ live

abbrev baseline : SnapshotManifest
baseline = record {
  snapshot_id = "b0";
  parent_snapshot_id = none;
  candidate_id = none;
  model_id = "m";
  objective_digest = "sha256:o";
  split_digest = "sha256:s";
  asset_manifest_digest = "sha256:a";
  code_revision = "r";
  harness_files = ("harness/a", "sha256:1") ∷ ("harness/b", "sha256:2") ∷ [];
  runtime = record { host = RuntimeHost.deepseek_harness; version = "v" };
  created_at = "t0";
}

abbrev child : SnapshotManifest
child = record baseline {
  snapshot_id = "c1";
  parent_snapshot_id = some "b0";
  candidate_id = some "c1";
  harness_files = ("harness/a", "sha256:3") ∷ ("harness/c", "sha256:4") ∷ [];
}

abbrev first : SnapshotActivation
first = record {
  ordinal = 1;
  action = to_baseline;
  snapshot_id = "b0";
  previous_snapshot_id = none;
  decision_id = none;
  approval_digest = none;
  actor = "owner";
  activated_at = "t0";
}

abbrev promotion : SnapshotActivation
promotion = record first {
  ordinal = 2;
  action = to_promote;
  snapshot_id = "c1";
  previous_snapshot_id = some "b0";
  decision_id = some "d1";
  approval_digest = some "sha256:p";
}

abbrev store : Store
store = record {
  snapshots =
      ("b0", record { manifest = baseline; files = ("harness/a", "1") ∷ ("harness/b", "2") ∷ [] })
      ∷ ("c1", record { manifest = child; files = ("harness/a", "3") ∷ ("harness/c", "4") ∷ [] })
      ∷ [];
  live = ("harness/a", "1") ∷ ("harness/b", "2") ∷ [];
  directories = "harness" ∷ [];
  activations = first ∷ [];
  journal = none;
}

-- The first new file is written, and the temporary file of the second one is broken.
abbrev crashed : Store
crashed =
    record (write_journal is_safe_id file_digest parents torn store child baseline promotion) {
      live = ("harness/c.alg.tmp", "?") ∷ ("harness/a", "3") ∷ [];
      directories = "harness" ∷ "harness" ∷ "harness" ∷ [];
    }

abbrev dirs : List String
dirs = "harness" ∷ "harness" ∷ "harness" ∷ "harness" ∷ "harness" ∷ []

abbrev canonical_digest : PromotionApproval → Digest
canonical_digest p = str_append "sha256:" p.approval_id

abbrev approval : PromotionApproval
approval = record {
  approval_id = "p2";
  action = ApprovalAction.rollback;
  target_snapshot_id = "b0";
  actor = "owner";
  approved_at = "t2";
}

-- The promotion is active.
abbrev promoted : Store
promoted = record store {
  live = ("harness/a", "3") ∷ ("harness/c", "4") ∷ [];
  activations = first ∷ promotion ∷ [];
}

unfoldable rolled_back : Store × SnapshotActivation
unfolding rollback_to
rolled_back =
    value_of
      (rollback_to is_safe_id file_digest parents torn canonical_digest promoted "b0"
        (some approval))
      tt

rolls_back :
    rollback_to is_safe_id file_digest parents torn canonical_digest promoted "b0" (some approval)
    ≡ ok (rolled_back.0, rolled_back.1)
unfolding rolled_back rollback_to
rolls_back = refl

rollback_to-IsActive_example :
    (target : SnapshotManifest) × (target.snapshot_id ≡ "b0")
    × (verify is_safe_id file_digest parents torn promoted "b0" ≡ ok target)
    × IsActive is_safe_id file_digest parents torn target rolled_back.1 rolled_back.0
    × ((p : PromotionApproval) × (some approval ≡ some p)
        × (p.action ≡ ApprovalAction.rollback)
        × (p.target_snapshot_id ≡ "b0"))
rollback_to-IsActive_example =
    rollback_to-IsActive is_safe_id file_digest parents torn canonical_digest promoted rolled_back.0
      "b0" (some approval) rolled_back.1 rolls_back
