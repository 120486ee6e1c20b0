-- ===== src/Schemas/Enums.antt =====
-- The enumerations of agentloopgate/schemas/models.py.
use agent_loop_gate.Base.{Eq, eq_of_discrete}

pub data Pool : Type 0 where
  pilot update_source update_check selection release_id release_ood : Pool

pub data RuntimeHost : Type 0 where
  python_cli tau3 deepseek_harness fixture : RuntimeHost

pub data PersistenceKind : Type 0 where
  tau_raw jsonl sqlite memory unknown : PersistenceKind

pub data IngestMode : Type 0 where
  reference mirror : IngestMode

pub data EvidenceStatus : Type 0 where
  pending verified incomplete unavailable : EvidenceStatus

pub data RunSource : Type 0 where
  tau3 dsh jsonl fixture : RunSource

pub data RunValidity : Type 0 where
  valid infra_invalid : RunValidity

pub data ViolationCode : Type 0 where
  policy_violation unsupported_action user_claim_overtrust high_risk_state_change : ViolationCode

pub data FailureType : Type 0 where
  retrieval_miss document_selection_error cross_document_reasoning_error : FailureType
  policy_application_error tool_discovery_error tool_selection_error : FailureType
  tool_parameter_error action_order_error state_verification_error recovery_error : FailureType
  user_claim_overtrust spec_or_evaluator_issue infra_failure unknown : FailureType

pub data AssetFamily : Type 0 where
  prompt_instruction context_memory_skill retrieval_search_policy : AssetFamily
  tool_contract_routing orchestration_state middleware_runtime_code : AssetFamily

-- The tiers `L`, `M` and `H`.
pub data RiskTier : Type 0 where
  risk_l risk_m risk_h : RiskTier

pub data CandidateStatus : Type 0 where
  draft registered checked update_evaluated selection_evaluated : CandidateStatus
  release_evaluated ship_recommended held rejected shipped rolled_back : CandidateStatus

pub data DecisionValue : Type 0 where
  ship_recommended hold reject : DecisionValue

pub data GateStatus : Type 0 where
  pass fail not_evaluated : GateStatus

pub data GateName : Type 0 where
  evaluation_integrity leakage critical_violation id_effect ood_noninferiority : GateName
  replay reliability cost latency : GateName

abbrev pub Pool-discrete : Discrete Pool
Pool-discrete = hlevel

instance abbrev pub pool_eq : Eq Pool
pool_eq = eq_of_discrete Pool-discrete

abbrev pub RunSource-discrete : Discrete RunSource
RunSource-discrete = hlevel

instance abbrev pub run_source_eq : Eq RunSource
run_source_eq = eq_of_discrete RunSource-discrete

abbrev pub RunValidity-discrete : Discrete RunValidity
RunValidity-discrete = hlevel

instance abbrev pub run_validity_eq : Eq RunValidity
run_validity_eq = eq_of_discrete RunValidity-discrete

abbrev pub EvidenceStatus-discrete : Discrete EvidenceStatus
EvidenceStatus-discrete = hlevel

instance abbrev pub evidence_status_eq : Eq EvidenceStatus
evidence_status_eq = eq_of_discrete EvidenceStatus-discrete

abbrev pub IngestMode-discrete : Discrete IngestMode
IngestMode-discrete = hlevel

instance abbrev pub ingest_mode_eq : Eq IngestMode
ingest_mode_eq = eq_of_discrete IngestMode-discrete

abbrev pub RiskTier-discrete : Discrete RiskTier
RiskTier-discrete = hlevel

instance abbrev pub risk_tier_eq : Eq RiskTier
risk_tier_eq = eq_of_discrete RiskTier-discrete

abbrev pub GateName-discrete : Discrete GateName
GateName-discrete = hlevel

instance abbrev pub gate_name_eq : Eq GateName
gate_name_eq = eq_of_discrete GateName-discrete

abbrev pub CandidateStatus-discrete : Discrete CandidateStatus
CandidateStatus-discrete = hlevel

instance abbrev pub candidate_status_eq : Eq CandidateStatus
candidate_status_eq = eq_of_discrete CandidateStatus-discrete

abbrev pub FailureType-discrete : Discrete FailureType
FailureType-discrete = hlevel

instance abbrev pub failure_type_eq : Eq FailureType
failure_type_eq = eq_of_discrete FailureType-discrete

abbrev pub AssetFamily-discrete : Discrete AssetFamily
AssetFamily-discrete = hlevel

instance abbrev pub asset_family_eq : Eq AssetFamily
asset_family_eq = eq_of_discrete AssetFamily-discrete
