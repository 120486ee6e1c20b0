-- ===== src/Gates/Models.antt =====
-- Inputs and results of the gates and of the selectors: agentloopgate/gates/models.py.
use agent_loop_gate.Base.{
  ℕ, String, Bool, true, false, not, ◌&&◌, ◌||◌, ◌-◌, Option, none, some, List, [], ◌∷◌, Result, ok,
  err, raise_if, ◌>>◌, ltb, ◌==◌, same_set, keys, values, length, count, is_some, is_none, str_eq,
}
use agent_loop_gate.Base.Int.{ℤ}
use agent_loop_gate.Base.Decimals.{Decimal, le}
use agent_loop_gate.Schemas.{GateName, RiskTier, gate_name_eq, ArtifactId, Digest, NonEmpty}
use agent_loop_gate.Schemas.Contract.{all_gates}
use agent_loop_gate.Schemas.Candidate.{DecisionRecord}

pub record GateAssessment : Type 0 where
  pub candidate_id : ArtifactId
  pub baseline_snapshot_id : ArtifactId
  pub evaluation_integrity_complete : Bool
  pub leakage_hits : ℕ
  pub mutates_trust_kernel : Bool
  pub risk_tier : RiskTier
  pub release_critical_violations : ℕ
  pub id_stable_task_net : ℤ
  pub ood_stable_task_net : ℤ
  pub replay_stable_task_net : ℤ
  pub catastrophic_regressions : ℕ
  pub reliability_complete : Bool
  pub reliability_trials : ℕ
  pub stable_success_required : ℕ
  pub baseline_mean_cost : Decimal
  pub candidate_mean_cost : Decimal
  pub baseline_p50_latency_ms : Decimal
  pub candidate_p50_latency_ms : Decimal
  pub evidence_refs : List (GateName × NonEmpty)

-- The `ge=1` constraints and `evidence_is_complete`.
unfoldable pub check_assessment : GateAssessment → Result String (Unit {0})
check_assessment a = do
  raise_if (a.reliability_trials == 0) "reliability_trials"
  raise_if (a.stable_success_required == 0) "stable_success_required"
  raise_if (not (same_set (keys a.evidence_refs) all_gates)) "evidence_refs must contain every gate"
  ok tt

pub record GateOutcome : Type 0 where
  pub decision_record : DecisionRecord
  pub failed_gate : Option GateName
  pub reason : NonEmpty

-- A `Decimal` with a sign, which only a native score can have.
pub record SignedDecimal : Type 0 where
  pub negative : Bool
  pub magnitude : Decimal

pub record CandidateSelectionInput : Type 0 where
  pub candidate_id : ArtifactId
  pub native_score : Option SignedDecimal
  pub native_rank : Option ℕ
  pub native_signal_ref : Option String
  pub evaluation_complete : Bool
  pub stable_success_task_count : ℕ
  pub critical_violations : ℕ
  pub mean_cost : Decimal
  pub p50_latency_ms : Decimal
  pub stable_task_outcomes : Option (List (ArtifactId × Bool))
  pub whole_attempt_cost_usd : Option Decimal
  pub task_attempt_count : Option ℕ
  pub retry_count : Option ℕ
  pub timeout_count : Option ℕ
  pub p95_latency_ms : Option Decimal
  pub max_latency_ms : Option Decimal
  pub operational_evidence_refs : Option (List NonEmpty)

-- The tests on the attempts and the latencies. The source's subtraction is signed, and the test
-- above it has excluded a negative difference.
unfoldable pub check_operations :
    List (ArtifactId × Bool) → ℕ → ℕ → Decimal → Decimal → Decimal → Result String (Unit {0})
check_operations outcomes attempts retries p50 p95 max_latency = do
  raise_if (ltb attempts (length outcomes)) "task attempt count cannot be smaller than task count"
  raise_if (ltb (attempts - length outcomes) retries)
      "retry count conflicts with task attempt count"
  raise_if (not (le p50 p95 && le p95 max_latency)) "selection latency quantiles are not monotonic"
  ok tt

abbrev is_empty : List NonEmpty → Bool
is_empty [] = true
is_empty (r ∷ rs) = false

-- The tests on the enhanced evidence: none of it, or all of it and consistent.
unfoldable pub check_enhanced :
    CandidateSelectionInput
    → Option (List (ArtifactId × Bool))
    → Option ℕ
    → Option ℕ
    → Option Decimal
    → Option Decimal
    → Option (List NonEmpty)
    → Result String (Unit {0})
unfolding check_operations
check_enhanced c (some outcomes) (some attempts) (some retries) (some p95) (some max_latency)
      (some refs) =
    do
      raise_if (is_none c.whole_attempt_cost_usd || is_none c.timeout_count)
          "enhanced selection evidence must be complete"
      raise_if (not (count (λ b. b) (values outcomes) == c.stable_success_task_count))
          "stable outcomes conflict with stable success count"
      raise_if (is_empty refs) "enhanced selection requires evidence references"
      check_operations outcomes attempts retries c.p50_latency_ms p95 max_latency
check_enhanced c none none none none none none =
    raise_if (is_some c.whole_attempt_cost_usd || is_some c.timeout_count)
      "enhanced selection evidence must be complete"
check_enhanced c _ _ _ _ _ _ = err "enhanced selection evidence must be complete"

abbrev no_reference : Option String → Bool
no_reference none = true
no_reference (some s) = str_eq s ""

-- `native_signal_is_unambiguous`
unfoldable pub check_selection_input : CandidateSelectionInput → Result String (Unit {0})
unfolding check_enhanced
check_selection_input c = do
  raise_if (elim c.native_rank [ none ↦ false | some r ↦ r == 0 ]) "native_rank"
  raise_if (elim c.task_attempt_count [ none ↦ false | some n ↦ n == 0 ]) "task_attempt_count"
  raise_if
      (elim (is_none c.native_score) [
        | true ↦ is_none c.native_rank
        | false ↦ is_some c.native_rank
      ])
      "exactly one native score or native rank is required"
  raise_if (is_some c.native_rank && no_reference c.native_signal_ref)
      "native rank requires its external signal reference"
  check_enhanced c c.stable_task_outcomes c.task_attempt_count c.retry_count c.p95_latency_ms
      c.max_latency_ms c.operational_evidence_refs

pub record BaselineSelectionInput : Type 0 where
  pub snapshot_id : ArtifactId
  pub evaluation_complete : Bool
  pub stable_success_task_count : ℕ
  pub stable_task_outcomes : List (ArtifactId × Bool)
  pub critical_violations : ℕ
  pub mean_cost : Decimal
  pub whole_attempt_cost_usd : Decimal
  pub task_attempt_count : ℕ
  pub retry_count : ℕ
  pub timeout_count : ℕ
  pub p50_latency_ms : Decimal
  pub p95_latency_ms : Decimal
  pub max_latency_ms : Decimal
  pub operational_evidence_refs : List NonEmpty

-- The length constraints and `evidence_is_consistent`. The source's subtraction is signed, and
-- the test above it has excluded a negative difference.
unfoldable pub check_baseline : BaselineSelectionInput → Result String (Unit {0})
check_baseline b = do
  raise_if (length b.stable_task_outcomes == 0) "stable_task_outcomes"
  raise_if (b.task_attempt_count == 0) "task_attempt_count"
  raise_if (ltb (length b.operational_evidence_refs) 3) "operational_evidence_refs"
  raise_if (not (count (λ x. x) (values b.stable_task_outcomes) == b.stable_success_task_count))
      "baseline outcomes conflict with stable success count"
  raise_if (ltb b.task_attempt_count (length b.stable_task_outcomes))
      "baseline task attempt count is too small"
  raise_if (ltb (b.task_attempt_count - length b.stable_task_outcomes) b.retry_count)
      "baseline retry count conflicts with task attempts"
  raise_if (not (le b.p50_latency_ms b.p95_latency_ms && le b.p95_latency_ms b.max_latency_ms))
      "baseline latency quantiles are not monotonic"
  ok tt

pub record SelectionPolicy : Type 0 where
  pub whole_attempt_cost_ratio_max : Decimal
  pub p95_latency_ratio_max : Decimal
  pub max_retry_increase : ℕ
  pub max_timeout_increase : ℕ

-- The schema versions `1.0` and `1.1`.
pub data SelectionVersion : Type 0 where
  legacy governed : SelectionVersion

pub data SelectionDecision : Type 0 where
  select hold : SelectionDecision

pub record DualSelection : Type 0 where
  pub schema_version : SelectionVersion
  pub native_candidate_id : ArtifactId
  pub agentloopgate_candidate_id : Option ArtifactId
  pub ladder_digest : NonEmpty
  pub agentloopgate_decision : Option SelectionDecision
  pub decision_reason : Option NonEmpty
  pub baseline_snapshot_id : Option ArtifactId
  pub baseline_digest : Option Digest
  pub policy_digest : Option Digest
  pub governance_findings : Option (List (ArtifactId × List NonEmpty))

-- `any(item is not None for item in governed)` and `any(item is None for item in governed)`.
abbrev any_governed : DualSelection → Bool
any_governed s =
    is_some s.agentloopgate_decision
    || is_some s.decision_reason
    || is_some s.baseline_snapshot_id
    || is_some s.baseline_digest
    || is_some s.policy_digest
    || is_some s.governance_findings

abbrev any_missing : DualSelection → Bool
any_missing s =
    is_none s.agentloopgate_decision
    || is_none s.decision_reason
    || is_none s.baseline_snapshot_id
    || is_none s.baseline_digest
    || is_none s.policy_digest
    || is_none s.governance_findings

abbrev check_decision : Option SelectionDecision → Option ArtifactId → Result String (Unit {0})
check_decision (some select) c = raise_if (is_none c) "SELECT requires a governed candidate"
check_decision (some hold) c = raise_if (is_some c) "HOLD cannot name a governed candidate"
check_decision none c = raise_if (is_some c) "HOLD cannot name a governed candidate"

-- `decision_matches_schema`
unfoldable pub check_selection : DualSelection → Result String (Unit {0})
check_selection s = elim s.schema_version [
  | legacy ↦ do
    raise_if (is_none s.agentloopgate_candidate_id) "legacy selection requires a governed candidate"
    raise_if (any_governed s) "legacy selection cannot contain abstention evidence"
    ok tt
  | governed ↦ do
    raise_if (any_missing s) "selection 1.1 requires baseline, policy, and findings"
    check_decision s.agentloopgate_decision s.agentloopgate_candidate_id
]
