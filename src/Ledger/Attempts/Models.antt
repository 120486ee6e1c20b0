-- ===== src/Ledger/Attempts/Models.antt =====
-- The events of experiment attempts, their validator and the fields of a new event.
use agent_loop_gate.Base.{
  ℕ, String, Bool, false, not, ◌&&◌, Option, none, some, List, [], Result, ok, raise_if, ◌>>◌, same,
  values, any, is_none, string_eq, option_eq, product_eq, str_eq, if◌then◌else◌, Eq,
}
use agent_loop_gate.Base.Int.{ℤ, pos, ltb_ℤ}
use agent_loop_gate.Base.Decimals.{Decimal, whole}
use agent_loop_gate.Schemas.{Digest, ArtifactId, NonEmpty, UtcDateTime}
use agent_loop_gate.Schemas.Evidence.{is_blank}
use agent_loop_gate.Runtime.Usage.{
  AttemptState, started, completed, failed, attempt_state_eq, CostStatus, pending, exact,
  not_applicable, cost_status_eq,
}

-- The fields of an event but its id and its digest.
pub record AttemptFields : Type 0 where
  pub attempt_id : ArtifactId
  pub experiment_id : ArtifactId
  pub operation : NonEmpty
  pub state : AttemptState
  pub recorded_at : UtcDateTime
  pub protocol_digest : Digest
  pub study_digest : Option Digest
  pub source_revision : Option String
  pub stage : Option String
  pub batch_id : Option ArtifactId
  pub snapshot_id : Option ArtifactId
  pub candidate_id : Option ArtifactId
  pub spec_digest : Option Digest
  pub command : List String
  pub duration_ms : Option ℕ
  pub exit_code : Option ℤ
  pub resumed : Bool
  pub cost_status : CostStatus
  pub known_cost_usd : Option Decimal
  pub cost_artifact : Option String
  pub cost_digest : Option Digest
  pub result_artifacts : List (String × Digest)
  pub counters : List (String × ℤ)
  pub error_type : Option String
  pub error_message : Option String
  pub recovery_action : Option String

pub record ExperimentAttemptEvent : Type 0 where
  pub fields : AttemptFields
  pub event_id : ArtifactId
  pub event_digest : Digest

-- `lifecycle_is_consistent`
unfoldable pub check_attempt : AttemptFields → Result String (Unit {0})
check_attempt f = do
  raise_if (same f.state started && not (same f.cost_status pending))
      "started attempts require pending cost status"
  raise_if (same f.state failed && is_blank f.error_type) "failed attempts require an error type"
  raise_if (same f.cost_status exact && is_none f.known_cost_usd)
      "exact attempt cost requires a value"
  raise_if (any (λ c. ltb_ℤ c (pos 0)) (values f.counters)) "attempt counters must be non-negative"
  ok tt

abbrev pub EventPath : Type 0
EventPath = ArtifactId × ArtifactId

instance abbrev pub event_path_eq : Eq EventPath
event_path_eq = product_eq string_eq string_eq

abbrev pub AttemptLedger : Type 0
AttemptLedger = List (EventPath × ExperimentAttemptEvent)

-- The keyword arguments of `begin`.
pub record AttemptStart : Type 0 where
  pub operation : NonEmpty
  pub protocol_digest : Digest
  pub study_digest : Option Digest
  pub source_revision : Option String
  pub stage : Option String
  pub batch_id : Option ArtifactId
  pub snapshot_id : Option ArtifactId
  pub candidate_id : Option ArtifactId
  pub spec_digest : Option Digest
  pub command : List String
  pub recovery_action : Option String

-- The keyword arguments of `complete`, with what it reads of the cost accounting.
pub record AttemptEnd : Type 0 where
  pub exit_code : ℤ
  pub resumed : Bool
  pub accounting_status : CostStatus
  pub total_cost_lower_bound_usd : Option Decimal
  pub cost_digest : Digest
  pub cost_artifact : String
  pub result_artifacts : List (String × Digest)
  pub counters : List (String × ℤ)
  pub attempt_cost_status : Option CostStatus
  pub attempt_known_cost_usd : Option Decimal

-- The arguments of `fail`: the exception's type and its text, and the keyword arguments.
pub record AttemptFailure : Type 0 where
  pub type_name : String
  pub message : String
  pub exit_code : Option ℤ
  pub recovery_action : String
  pub cost_status : CostStatus
  pub known_cost_usd : Option Decimal
  pub result_artifacts : List (String × Digest)

abbrev status_or : CostStatus → Option CostStatus → CostStatus
status_or s none = s
status_or s (some t) = t

abbrev cost_or : Option Decimal → Option Decimal → Option Decimal
cost_or c none = c
cost_or c (some d) = some d

abbrev pub start_fields : ArtifactId → ArtifactId → UtcDateTime → AttemptStart → AttemptFields
start_fields experiment_id attempt_id now a = record {
  attempt_id = attempt_id;
  experiment_id = experiment_id;
  operation = a.operation;
  state = started;
  recorded_at = now;
  protocol_digest = a.protocol_digest;
  study_digest = a.study_digest;
  source_revision = a.source_revision;
  stage = a.stage;
  batch_id = a.batch_id;
  snapshot_id = a.snapshot_id;
  candidate_id = a.candidate_id;
  spec_digest = a.spec_digest;
  command = a.command;
  duration_ms = none;
  exit_code = none;
  resumed = false;
  cost_status = pending;
  known_cost_usd = none;
  cost_artifact = none;
  cost_digest = none;
  result_artifacts = [];
  counters = [];
  error_type = none;
  error_message = none;
  recovery_action = a.recovery_action;
}

abbrev pub complete_fields : AttemptFields → UtcDateTime → ℕ → AttemptEnd → AttemptFields
complete_fields f now ms a = record f {
  state = completed;
  recorded_at = now;
  duration_ms = some ms;
  exit_code = some a.exit_code;
  resumed = a.resumed;
  cost_status = status_or a.accounting_status a.attempt_cost_status;
  known_cost_usd = cost_or a.total_cost_lower_bound_usd a.attempt_known_cost_usd;
  cost_artifact = some a.cost_artifact;
  cost_digest = some a.cost_digest;
  result_artifacts = a.result_artifacts;
  counters = a.counters;
}

abbrev pub no_model_fields :
    AttemptFields → UtcDateTime → ℕ → ℤ → List (String × Digest) → List (String × ℤ) → AttemptFields
no_model_fields f now ms exit_code artifacts counters = record f {
  state = completed;
  recorded_at = now;
  duration_ms = some ms;
  exit_code = some exit_code;
  cost_status = not_applicable;
  known_cost_usd = some (whole 0);
  result_artifacts = artifacts;
  counters = counters;
}

abbrev text_or : String → String → String
text_or fallback s = if str_eq s "" then fallback else s

abbrev pub fail_fields :
    (String → String) → AttemptFields → UtcDateTime → ℕ → AttemptFailure → AttemptFields
fail_fields sanitize f now ms a = record f {
  state = failed;
  recorded_at = now;
  duration_ms = some ms;
  exit_code = a.exit_code;
  cost_status = a.cost_status;
  known_cost_usd = a.known_cost_usd;
  result_artifacts = a.result_artifacts;
  error_type = some a.type_name;
  error_message = some (text_or a.type_name (sanitize a.message));
  recovery_action = some a.recovery_action;
}
