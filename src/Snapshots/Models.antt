-- ===== src/Snapshots/Models.antt =====
-- The records of agentloopgate/snapshots/models.py, the manifest of a snapshot, and the store.
use agent_loop_gate.Base.{
  ℕ, String, Option, List, [], ◌∷◌, ◌++◌, Result, ok, err, string_eq, nat_eq, option_eq, Eq,
  eq_of_discrete,
}
use agent_loop_gate.Schemas.{Digest, ArtifactId, NonEmpty, UtcDateTime}
use agent_loop_gate.Schemas.Candidate.{SnapshotRuntime}

pub record SnapshotManifest : Type 0 where
  pub snapshot_id : ArtifactId
  pub parent_snapshot_id : Option ArtifactId
  pub candidate_id : Option ArtifactId
  pub model_id : NonEmpty
  pub objective_digest : Digest
  pub split_digest : Digest
  pub asset_manifest_digest : Digest
  pub code_revision : NonEmpty
  pub harness_files : List (NonEmpty × Digest)
  pub runtime : SnapshotRuntime
  pub created_at : UtcDateTime

pub data ApprovalAction : Type 0 where
  promote rollback : ApprovalAction

pub record PromotionApproval : Type 0 where
  pub approval_id : ArtifactId
  pub action : ApprovalAction
  pub target_snapshot_id : ArtifactId
  pub actor : NonEmpty
  pub approved_at : UtcDateTime

pub data ActivationAction : Type 0 where
  to_baseline to_promote to_rollback : ActivationAction

abbrev pub ApprovalAction-discrete : Discrete ApprovalAction
ApprovalAction-discrete = hlevel

instance abbrev pub approval_action_eq : Eq ApprovalAction
approval_action_eq = eq_of_discrete ApprovalAction-discrete

abbrev pub ActivationAction-discrete : Discrete ActivationAction
ActivationAction-discrete = hlevel

instance abbrev pub activation_action_eq : Eq ActivationAction
activation_action_eq = eq_of_discrete ActivationAction-discrete

pub record SnapshotActivation : Type 0 where
  pub ordinal : ℕ
  pub action : ActivationAction
  pub snapshot_id : ArtifactId
  pub previous_snapshot_id : Option ArtifactId
  pub decision_id : Option ArtifactId
  pub approval_digest : Option Digest
  pub actor : NonEmpty
  pub activated_at : UtcDateTime

-- Files by their paths.
abbrev pub Files : Type 0
Files = List (String × String)

-- The directory of a snapshot.
pub record StoredSnapshot : Type 0 where
  pub manifest : SnapshotManifest
  pub files : Files

-- `pending_activation.json`
pub record Journal : Type 0 where
  pub previous : ArtifactId
  pub target : ArtifactId
  pub activation : SnapshotActivation

-- The project: the snapshots, the live harness with its directories, the activations in their order
-- and the journal.
pub record Store : Type 0 where
  pub snapshots : List (ArtifactId × StoredSnapshot)
  pub live : Files
  pub directories : List String
  pub activations : List SnapshotActivation
  pub journal : Option Journal

-- The run of code that writes to the disk: the project after each write, in order, and the outcome.
pub record Run : Type 0 where
  pub trace : List Store
  pub outcome : Result String Store

abbrev pub raises : String → Run
raises e = record { trace = []; outcome = err e }

abbrev pub returns : Store → Run
returns st = record { trace = []; outcome = ok st }

abbrev pub writes : Store → Run
writes st = record { trace = st ∷ []; outcome = ok st }

abbrev pub following : List Store → Run → Run
following earlier r = record { trace = earlier ++ r.trace; outcome = r.outcome }

abbrev pub continue : List Store → Result String Store → (Store → Run) → Run
continue earlier (err e) f = record { trace = earlier; outcome = err e }
continue earlier (ok st) f = following earlier (f st)

-- One statement after the other.
abbrev pub and_then : Run → (Store → Run) → Run
and_then r f = continue r.trace r.outcome f
