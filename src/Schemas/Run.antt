-- ===== src/Schemas/Run.antt =====
-- Run records of agentloopgate/schemas/models.py.
use agent_loop_gate.Base.{
  ℕ, String, Bool, ◌&&◌, ◌||◌, Option, List, Result, ok, raise_if, ◌>>◌, ◌==◌, same, is_some,
  is_none, str_eq,
}
use agent_loop_gate.Base.Decimals.{Decimal}
use agent_loop_gate.Schemas.Enums.{
  Pool, RuntimeHost, RunSource, RunValidity, ViolationCode, valid, infra_invalid, run_source_eq,
  run_validity_eq,
}
use agent_loop_gate.Schemas.Evidence.{is_blank}
use agent_loop_gate.Schemas.Texts.{Digest, ArtifactId, NonEmpty, UtcDateTime}

pub record RunRecord : Type 0 where
  pub run_id : ArtifactId
  pub attempt_id : ArtifactId
  pub task_id : ArtifactId
  pub pool : Pool
  pub snapshot_id : ArtifactId
  pub candidate_id : Option ArtifactId
  pub source : RunSource
  pub runtime_host : RuntimeHost
  pub runtime_version : NonEmpty
  pub runtime_profile : Option String
  pub composition_digest : Option Digest
  pub model_id : NonEmpty
  pub benchmark_commit : NonEmpty
  pub objective_digest : Digest
  pub split_digest : Digest
  pub initial_state_digest : Digest
  pub terminal_state_digest : Digest
  pub trial_index : ℕ
  pub run_validity : RunValidity
  pub success : Option Bool
  pub critical_violations : List ViolationCode
  pub input_tokens : ℕ
  pub output_tokens : ℕ
  pub latency_ms : ℕ
  pub cost : Option Decimal
  pub source_trace_ref : ArtifactId
  pub evidence_receipt_ref : ArtifactId
  pub created_at : UtcDateTime

-- `runtime_and_validity_are_consistent`
unfoldable pub check_run : RunRecord → Result String (Unit {0})
check_run r = do
  raise_if (r.trial_index == 0) "trial_index"
  raise_if
      (same r.source RunSource.dsh && (is_blank r.runtime_profile || is_blank r.composition_digest))
      "dsh runs require runtime_profile and composition_digest"
  raise_if (same r.run_validity valid && is_none r.success) "valid runs require a success value"
  raise_if (same r.run_validity valid && is_none r.cost) "valid runs require exact cost evidence"
  raise_if (same r.run_validity infra_invalid && is_some r.success)
      "infra_invalid runs cannot be scored as success or failure"
  ok tt

pub record PilotEvidenceJoin : Type 0 where
  pub join_id : ArtifactId
  pub task_id : ArtifactId
  pub trial_index : ℕ
  pub dsh_run_id : ArtifactId
  pub tau_run_id : ArtifactId
  pub dsh_source_trace_ref : ArtifactId
  pub dsh_evidence_receipt_ref : ArtifactId
  pub tau_source_trace_ref : ArtifactId
  pub tau_evidence_receipt_ref : ArtifactId
  pub session_id_hash : Digest
  pub outcome_success : Option Bool
  pub evidence_digest : Digest
  pub created_at : UtcDateTime

-- `sides_are_distinct`
unfoldable pub check_join : PilotEvidenceJoin → Result String (Unit {0})
check_join j = do
  raise_if (j.trial_index == 0) "trial_index"
  raise_if (str_eq j.dsh_run_id j.tau_run_id) "DSH and τ³ run ids must be distinct"
  raise_if (str_eq j.dsh_source_trace_ref j.tau_source_trace_ref)
      "DSH and τ³ source trace references must be distinct"
  ok tt
