-- ===== src/Schemas/Contract.antt =====
-- The objective contract of agentloopgate/schemas/models.py. Fields whose type is one literal
-- carry no information and are left out.
use agent_loop_gate.Base.{
  ℕ, String, Bool, true, false, not, Option, List, [], ◌∷◌, Result, ok, raise_if, ◌>>◌, ltb, ◌==◌,
  same, if◌then◌else◌,
}
use agent_loop_gate.Base.Int.{ℤ}
use agent_loop_gate.Base.Decimals.{Decimal}
use agent_loop_gate.Schemas.Enums.{
  GateName, gate_name_eq, evaluation_integrity, leakage, critical_violation, id_effect,
  ood_noninferiority, replay, reliability, cost, latency,
}
use agent_loop_gate.Schemas.Texts.{Digest, NonEmpty, UtcDateTime}

pub record BenchmarkConfig : Type 0 where
  pub name : NonEmpty
  pub suite : NonEmpty
  pub commit : NonEmpty

pub record ReliabilityConfig : Type 0 where
  pub trials : ℕ
  pub stable_success_required : ℕ

-- The two `ge=1` constraints and `stable_success_fits_trials`.
unfoldable pub check_reliability : ReliabilityConfig → Result String (Unit {0})
check_reliability c = do
  raise_if (c.trials == 0) "trials"
  raise_if (c.stable_success_required == 0) "stable_success_required"
  raise_if (ltb c.trials c.stable_success_required) "stable_success_required cannot exceed trials"
  ok tt

-- The two ratio limits are floats that the gates read as decimals through their text.
pub record GateThresholds : Type 0 where
  pub leakage_hits_max : ℕ
  pub critical_violations_max : ℕ
  pub id_stable_task_net_min : ℤ
  pub ood_stable_task_net_min : ℤ
  pub replay_stable_task_net_min : ℤ
  pub catastrophic_regressions_max : ℕ
  pub mean_cost_ratio_max : Decimal
  pub p50_latency_ratio_max : Decimal

pub record ObjectiveContract : Type 0 where
  pub benchmark : BenchmarkConfig
  pub reliability : ReliabilityConfig
  pub gates : GateThresholds
  pub decision_order : List GateName
  pub frozen_at : Option UtcDateTime
  pub contract_digest : Option Digest

-- `list(GateName)`
abbrev pub all_gates : List GateName
all_gates =
    evaluation_integrity ∷ leakage ∷ critical_violation ∷ id_effect ∷ ood_noninferiority ∷ replay
    ∷ reliability ∷ cost ∷ latency ∷ []

-- Equality of two lists.
abbrev pub same_list : List GateName → List GateName → Bool
same_list [] [] = true
same_list (x ∷ xs) (y ∷ ys) = if same x y then same_list xs ys else false
same_list _ _ = false

-- `decision_order_is_complete_and_fixed`, after the validators of the parts.
unfoldable pub check_contract : ObjectiveContract → Result String (Unit {0})
unfolding check_reliability
check_contract c = do
  check_reliability c.reliability
  raise_if (c.gates.mean_cost_ratio_max.coeff == 0) "mean_cost_ratio_max"
  raise_if (c.gates.p50_latency_ratio_max.coeff == 0) "p50_latency_ratio_max"
  raise_if (not (same_list c.decision_order all_gates))
      "decision_order must contain every v1 gate in the frozen order"
  ok tt
