-- ===== src/Schemas/Candidate.antt =====
-- Failure bundles, candidates, snapshots and decisions of agentloopgate/schemas/models.py.
use agent_loop_gate.Base.{ℕ, Option, List}
use agent_loop_gate.Schemas.Enums.{
  RuntimeHost, FailureType, AssetFamily, RiskTier, CandidateStatus, DecisionValue, GateStatus,
  GateName,
}
use agent_loop_gate.Schemas.Texts.{Digest, ArtifactId, NonEmpty, UtcDateTime}

pub record ChangeBudget : Type 0 where
  pub max_files : ℕ
  pub max_changed_lines : ℕ

pub data ProtectedField : Type 0 where
  objective grader evaluator split gate final_access : ProtectedField

-- The source pool is always `update_source`.
pub record FailureBundle : Type 0 where
  pub failure_bundle_id : ArtifactId
  pub snapshot_id : ArtifactId
  pub failure_type : FailureType
  pub affected_run_ids : List ArtifactId
  pub evidence_refs : List NonEmpty
  pub redacted_summary : NonEmpty
  pub target_asset_families : List AssetFamily
  pub expected_behavior_change : NonEmpty
  pub must_not_change : List ProtectedField
  pub budget : ChangeBudget

pub record UpdaterIdentity : Type 0 where
  pub name : NonEmpty
  pub version : NonEmpty

pub data EffectMetric : Type 0 where
  stable_success_task_count critical_violations mean_cost p50_latency : EffectMetric

pub data EffectDirection : Type 0 where
  increase decrease noninferior : EffectDirection

pub record PredictedEffect : Type 0 where
  pub metric : EffectMetric
  pub direction : EffectDirection

pub record CandidateRecord : Type 0 where
  pub candidate_id : ArtifactId
  pub parent_snapshot_id : ArtifactId
  pub failure_bundle_digest : Digest
  pub updater : UpdaterIdentity
  pub hypothesis : NonEmpty
  pub asset_families : List AssetFamily
  pub risk_tier : RiskTier
  pub patch_path : NonEmpty
  pub patch_digest : Digest
  pub changed_files : List NonEmpty
  pub predicted_effect : PredictedEffect
  pub status : CandidateStatus
  pub created_at : UtcDateTime

pub record SnapshotRuntime : Type 0 where
  pub host : RuntimeHost
  pub version : NonEmpty

pub record GateEvidence : Type 0 where
  pub name : GateName
  pub status : GateStatus
  pub evidence_ref : NonEmpty

pub record HumanApproval : Type 0 where
  pub approval_id : NonEmpty
  pub actor : NonEmpty
  pub approved_at : UtcDateTime

pub record DecisionRecord : Type 0 where
  pub decision_id : ArtifactId
  pub candidate_id : ArtifactId
  pub baseline_snapshot_id : ArtifactId
  pub decision : DecisionValue
  pub gates : List GateEvidence
  pub summary : NonEmpty
  pub human_approval : Option HumanApproval
  pub created_at : UtcDateTime
