-- ===== src/Runtime/Usage.antt =====
-- The usage events of model calls, agentloopgate/runtime/usage.py. The canonical digest is the
-- parameter `canonical_digest`.
use Prim.Native.String.{◌++◌ as str_append}
use agent_loop_gate.Base.{
  ℕ, String, Bool, true, false, not, ◌&&◌, ◌||◌, Option, none, some, Result, ok, raise_if, ◌>>◌,
  same, is_some, is_none, str_eq, if◌then◌else◌, Eq, eq_of_discrete,
}
use agent_loop_gate.Base.Int.{ℤ}
use agent_loop_gate.Base.Decimals.{Decimal}
use agent_loop_gate.Base.Texts.{short_digest}
use agent_loop_gate.Schemas.{Digest, ArtifactId, NonEmpty, UtcDateTime}
use agent_loop_gate.Schemas.Evidence.{is_blank}
pub mod Digests

pub data AttemptState : Type 0 where
  started completed failed : AttemptState

pub data CostStatus : Type 0 where
  pending exact partial unavailable not_applicable : CostStatus

pub data UsageVersion : Type 0 where
  usage_1_0 usage_1_1 usage_1_2 : UsageVersion

abbrev pub AttemptState-discrete : Discrete AttemptState
AttemptState-discrete = hlevel

instance abbrev pub attempt_state_eq : Eq AttemptState
attempt_state_eq = eq_of_discrete AttemptState-discrete

abbrev pub CostStatus-discrete : Discrete CostStatus
CostStatus-discrete = hlevel

instance abbrev pub cost_status_eq : Eq CostStatus
cost_status_eq = eq_of_discrete CostStatus-discrete

abbrev pub UsageVersion-discrete : Discrete UsageVersion
UsageVersion-discrete = hlevel

instance abbrev pub usage_version_eq : Eq UsageVersion
usage_version_eq = eq_of_discrete UsageVersion-discrete

-- The fields of an event but its id and its digest.
pub record CallFields : Type 0 where
  pub schema_version : UsageVersion
  pub call_id : ArtifactId
  pub state : AttemptState
  pub recorded_at : UtcDateTime
  pub session_id_hash : Digest
  pub model : NonEmpty
  pub task_id : Option NonEmpty
  pub trial : Option ℕ
  pub seed : Option ℤ
  pub task_attempt_index : Option ℕ
  pub duration_ms : Option ℕ
  pub input_tokens : Option ℕ
  pub cache_read_tokens : Option ℕ
  pub output_tokens : Option ℕ
  pub provider_retry_count : Option ℕ
  pub cost_usd : Option Decimal
  pub cost_status : CostStatus
  pub exit_code : Option ℤ
  pub error_type : Option String
  pub error_message : Option String

pub record ModelCallUsageEvent : Type 0 where
  pub fields : CallFields
  pub event_id : ArtifactId
  pub event_digest : Digest

abbrev pub has_task_identity : CallFields → Bool
has_task_identity f =
    is_some f.task_id || is_some f.trial || is_some f.seed || is_some f.task_attempt_index

abbrev pub lacks_task_identity : CallFields → Bool
lacks_task_identity f =
    is_none f.task_id || is_none f.trial || is_none f.seed || is_none f.task_attempt_index

-- `lifecycle_is_consistent`
unfoldable pub check_call : CallFields → Result String (Unit {0})
check_call f = do
  raise_if (same f.state started && not (same f.cost_status pending))
      "started model calls require pending cost status"
  raise_if (same f.cost_status exact && is_none f.cost_usd) "exact model-call cost requires a value"
  raise_if (same f.state failed && is_blank f.error_type) "failed model calls require an error type"
  raise_if (same f.schema_version usage_1_1 && is_none f.provider_retry_count)
      "model-call usage 1.1 requires provider_retry_count"
  raise_if (same f.schema_version usage_1_0 && is_some f.provider_retry_count)
      "model-call usage 1.0 cannot contain provider_retry_count"
  raise_if (same f.schema_version usage_1_2 && lacks_task_identity f)
      "model-call usage 1.2 requires complete task-attempt identity"
  raise_if (not (same f.schema_version usage_1_2) && has_task_identity f)
      "only model-call usage 1.2 can contain task identity"
  ok tt

-- What a digest is computed from: the fields, and whether the retry count and the task identity
-- stand among them.
pub record DigestPayload : Type 0 where
  pub fields : CallFields
  pub has_retry_count : Bool
  pub has_identity : Bool

-- The keyword arguments of make_model_call_event: the version and the retry count may be missing,
-- and a retry count may be given as None.
pub record CallArguments : Type 0 where
  pub fields : CallFields
  pub schema_version : Option UsageVersion
  pub provider_retry_count : Option (Option ℕ)

abbrev version_or : UsageVersion → Option UsageVersion → UsageVersion
version_or v none = v
version_or v (some w) = w

-- `payload.setdefault("provider_retry_count", 0)`
abbrev retries_or_zero : Option (Option ℕ) → Option (Option ℕ)
retries_or_zero none = some (some 0)
retries_or_zero (some r) = some r

-- The value of a retry count's key, None without the key.
abbrev field_value : Option (Option ℕ) → Option ℕ
field_value none = none
field_value (some r) = r

abbrev versioned : CallArguments → UsageVersion → Option (Option ℕ) → CallArguments
versioned a v r = record a { schema_version = some v; provider_retry_count = r }

-- `payload.get("provider_retry_count", 0) is None`, and both branches after it.
abbrev prepare_retries : CallArguments → Option (Option ℕ) → CallArguments
prepare_retries a (some none) = versioned a usage_1_0 none
prepare_retries a r = versioned a (version_or usage_1_1 a.schema_version) (retries_or_zero r)

unfoldable pub prepare : CallArguments → CallArguments
prepare a =
    if has_task_identity a.fields
    then versioned a usage_1_2 (retries_or_zero a.provider_retry_count)
    else prepare_retries a a.provider_retry_count

-- The fields that the validated draft has.
unfoldable pub draft_fields : CallArguments → UtcDateTime → CallFields
draft_fields a now = record a.fields {
  schema_version = version_or usage_1_0 a.schema_version;
  recorded_at = now;
  provider_retry_count = field_value a.provider_retry_count;
}

-- The payload of a new event's digest.
unfoldable pub draft_payload : CallFields → Option (Option ℕ) → DigestPayload
draft_payload f given = record {
  fields = f;
  has_retry_count = not (same f.schema_version usage_1_0 && is_none given);
  has_identity = same f.schema_version usage_1_2;
}

-- The payload of the check of a stored event's digest.
unfoldable pub stored_payload : CallFields → DigestPayload
stored_payload f = record {
  fields = f;
  has_retry_count = not (same f.schema_version usage_1_0 && is_none f.provider_retry_count);
  has_identity = same f.schema_version usage_1_2;
}

module _ (canonical_digest : DigestPayload → Digest) where
  unfoldable pub sealed_event : CallFields → Option (Option ℕ) → ModelCallUsageEvent
  unfolding short_digest
  sealed_event f given =
      let digest = canonical_digest (draft_payload f given) in
      record {
        fields = f;
        event_id = str_append "MCE_" (short_digest digest);
        event_digest = digest;
      }

  -- `make_model_call_event(**a)` at the time `now`
  unfoldable pub make_model_call_event :
      CallArguments → UtcDateTime → Result String ModelCallUsageEvent
  unfolding prepare draft_fields check_call sealed_event
  make_model_call_event a now = do
    check_call (draft_fields (prepare a) now)
    ok (sealed_event (draft_fields (prepare a) now) (prepare a).provider_retry_count)

  -- `verify_model_call_event`
  unfoldable pub verify_model_call_event : ModelCallUsageEvent → Result String (Unit {0})
  unfolding stored_payload
  verify_model_call_event e = do
    raise_if (not (str_eq (canonical_digest (stored_payload e.fields)) e.event_digest))
        "model call event digest mismatch"
    ok tt
