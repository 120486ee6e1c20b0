-- ===== src/Gates/Engine.antt =====
-- The promotion gate: agentloopgate/gates/engine.py.
pub mod Ladder
pub mod Promotion
use Prim.Native.String.{◌++◌ as str_append}
use agent_loop_gate.Base.{
  ℕ, String, Bool, true, false, not, ◌&&◌, ◌||◌, Option, none, some, List, [], ◌∷◌, ◌++◌, Result,
  ok, err, raise_if, ◌>>◌, ◌>>=◌, leb, ◌==◌, same, lookup, if◌then◌else◌,
}
use agent_loop_gate.Base.Int.{leb_ℤ}
use agent_loop_gate.Base.Decimals.{Decimal, whole, le, is_zero, div}
use agent_loop_gate.Schemas.{
  GateName, evaluation_integrity, leakage, critical_violation, id_effect, ood_noninferiority,
  replay, reliability, cost, latency, gate_name_eq, GateStatus, pass, fail, not_evaluated,
  DecisionValue, ship_recommended, hold, reject, risk_h, risk_tier_eq, Digest, NonEmpty, ArtifactId,
  UtcDateTime,
}
use agent_loop_gate.Schemas.Contract.{ObjectiveContract}
use agent_loop_gate.Schemas.Candidate.{GateEvidence, DecisionRecord}
use agent_loop_gate.Gates.Models.{GateAssessment, GateOutcome}

-- `_ratio`
unfoldable pub ratio : Decimal → Decimal → Option Decimal
unfolding div
ratio numerator denominator =
    if is_zero denominator
    then (if is_zero numerator then some (whole 1) else none)
    else some (div numerator denominator)

-- `ratio is not None and ratio <= limit`
abbrev pub within : Option Decimal → Decimal → Bool
within none limit = false
within (some r) limit = le r limit

-- `GateEngine._evaluate`
unfoldable pub evaluate : ObjectiveContract → GateName → GateAssessment → Bool × String
unfolding ratio
evaluate c evaluation_integrity a =
    (a.evaluation_integrity_complete, "evaluation evidence is incomplete")
evaluate c leakage a = (
  not a.mutates_trust_kernel && leb a.leakage_hits c.gates.leakage_hits_max,
  "candidate crosses the trust boundary or leaks evaluation data",
)
evaluate c critical_violation a = (
  not (same a.risk_tier risk_h)
      && leb a.release_critical_violations c.gates.critical_violations_max,
  "candidate is Risk-H or has a release critical violation",
)
evaluate c id_effect a = (
  leb_ℤ c.gates.id_stable_task_net_min a.id_stable_task_net,
  "independent ID stable-task effect is below the frozen minimum",
)
evaluate c ood_noninferiority a = (
  leb_ℤ c.gates.ood_stable_task_net_min a.ood_stable_task_net,
  "OOD stable-task effect is below the frozen noninferiority margin",
)
evaluate c replay a = (
  leb_ℤ c.gates.replay_stable_task_net_min a.replay_stable_task_net
      && leb a.catastrophic_regressions c.gates.catastrophic_regressions_max,
  "replay regressed or a catastrophic regression was detected",
)
evaluate c reliability a = (
  a.reliability_complete
      && a.reliability_trials == c.reliability.trials
      && a.stable_success_required == c.reliability.stable_success_required,
  "Pass^k reliability evidence is incomplete or mismatched",
)
evaluate c cost a = (
  within (ratio a.candidate_mean_cost a.baseline_mean_cost) c.gates.mean_cost_ratio_max,
  "mean cost ratio exceeds the frozen limit",
)
evaluate c latency a = (
  within (ratio a.candidate_p50_latency_ms a.baseline_p50_latency_ms) c.gates.p50_latency_ratio_max,
  "p50 latency ratio exceeds the frozen limit",
)

-- The local variables of the loop in `decide`.
pub record Progress : Type 0 where
  pub results : List GateEvidence
  pub failed_gate : Option GateName
  pub reason : String

abbrev pub start : Progress
start = record { results = []; failed_gate = none; reason = "all frozen promotion gates passed" }

-- `evidence_refs[gate]` on a missing gate.
pub data GateError : Type 0 where
  missing_evidence : GateName → GateError

abbrev pub evidence_ref : GateAssessment → GateName → Result GateError NonEmpty
evidence_ref a g = elim (lookup g a.evidence_refs) [
  | none ↦ err (missing_evidence g)
  | some r ↦ ok r
]

abbrev append_result : Progress → GateName → GateStatus → NonEmpty → Progress
append_result p g s r = record p {
  results = p.results ++ (record { name = g; status = s; evidence_ref = r }) ∷ [];
}

module _ (c : ObjectiveContract) (a : GateAssessment) where
  -- A gate that is reached before any failure.
  abbrev judged : Progress → GateName → Bool × String → NonEmpty → Progress
  judged p g (true, why) r = append_result p g pass r
  judged p g (false, why) r =
      append_result (record p { failed_gate = some g; reason = why }) g fail r

  abbrev one_gate : Progress → GateName → Option GateName → NonEmpty → Progress
  one_gate p g (some f) r = append_result p g not_evaluated r
  one_gate p g none r = judged p g (evaluate c g a) r

  -- The loop over the decision order.
  unfoldable pub run_gates : Progress → List GateName → Result GateError Progress
  run_gates p [] = ok p
  run_gates p (g ∷ gs) = do r ← evidence_ref a g; run_gates (one_gate p g p.failed_gate r) gs

abbrev pub decision_of : Option GateName → DecisionValue
decision_of none = ship_recommended
decision_of (some g) = if same g leakage then reject else hold

abbrev value_of : DecisionValue → String
value_of ship_recommended = "SHIP_RECOMMENDED"
value_of hold = "HOLD"
value_of reject = "REJECT"

-- `identity` is the digest of the contract's digest, the assessment and the decision, cut to
-- sixteen capitals.
module _ (identity : Option Digest → GateAssessment → DecisionValue → String) where
  abbrev outcome : ObjectiveContract → GateAssessment → UtcDateTime → Progress → GateOutcome
  outcome c a created_at p = record {
    decision_record = record {
      decision_id = str_append "D_" (identity c.contract_digest a (decision_of p.failed_gate));
      candidate_id = a.candidate_id;
      baseline_snapshot_id = a.baseline_snapshot_id;
      decision = decision_of p.failed_gate;
      gates = p.results;
      summary = str_append (value_of (decision_of p.failed_gate)) (str_append ": " p.reason);
      human_approval = none;
      created_at = created_at;
    };
    failed_gate = p.failed_gate;
    reason = p.reason;
  }

  -- `GateEngine.decide`
  unfoldable pub decide :
      ObjectiveContract → GateAssessment → UtcDateTime → Result GateError GateOutcome
  unfolding run_gates
  decide c a created_at = do p ← run_gates c a start c.decision_order; ok (outcome c a created_at p)
