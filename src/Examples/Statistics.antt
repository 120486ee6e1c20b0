-- ===== src/Examples/Statistics.antt =====
-- The paired bootstrap at concrete inputs.
use native.Mathlib.Nat.{
  suc-mul, mul_right_comm, mul-le-mul_right, le_of_mul-le-mul_right, lt-div-mul-add,
  div-lt_iff_lt-mul,
}
use agent_loop_gate.Base.{
  ℕ, suc, ◌+◌, ◌-◌, ◌*◌, ◌/◌, ◌^◌, ◌≤◌, ◌<◌, true, false, none, some, [], ◌∷◌, ok, leb,
  if◌then◌else◌, ◌≡◌, refl, arith,
}
use agent_loop_gate.Base.Decimals.{Decimal, whole, le, pow_pos}
use agent_loop_gate.Schemas.{release_id}
use agent_loop_gate.Evaluation.Metrics.{EvaluationSummary, summary_1_0}
use agent_loop_gate.Statistics.{stage_release_id, verify_pair, PairedNets, paired_task_bootstrap}
use agent_loop_gate.Statistics.Interval.{
  IsInRange, IsMonotone, IsInterval, paired_task_bootstrap-IsInterval,
}

ceil : ℕ → ℕ → ℕ
ceil c p = (c + (p - 1)) / p

le-ceil : (c p : ℕ) → 0 < p → c ≤ ceil c p * p
unfolding ceil
le-ceil c p h = omega (arith, lt-div-mul-add {a = c + (p - 1)} h, h)

ceil-le : (c p k : ℕ) → 0 < p → c ≤ k * p → ceil c p ≤ k
unfolding ceil
ceil-le c p k h le = omega (
  arith,
  (div-lt_iff_lt-mul {k = p} {x = c + (p - 1)} {y = suc k} h).1 (omega (arith, suc-mul k p, le, h)),
)

float_ceil : Decimal → ℕ
float_ceil a = ceil a.coeff (10 ^ a.scale)

monotone : IsMonotone float_ceil
unfolding float_ceil
monotone a b h =
    let p = 10 ^ a.scale in
    let q = 10 ^ b.scale in
    let k = ceil b.coeff q in
    let first : a.coeff * q ≤ b.coeff * p = ground (arith, h) in
    let second : b.coeff * p ≤ k * q * p =
      mul-le-mul_right p (le-ceil b.coeff q (pow_pos b.scale)) in
    let third : a.coeff * q ≤ k * p * q = omega (arith, first, second, mul_right_comm k q p) in
    ceil-le a.coeff p k (pow_pos a.scale) (le_of_mul-le-mul_right third (pow_pos b.scale))

-- A generator that counts up and starts again.
randrange : ℕ → ℕ → ℕ × ℕ
randrange r n = (if leb n r then 0 else r, r + 1)

in_range : IsInRange randrange
unfolding randrange
in_range r n h = ground (arith, h)

abbrev reference : EvaluationSummary
reference = record {
  schema_version = summary_1_0;
  pool = release_id;
  snapshot_id = "b0";
  candidate_id = none;
  trials = 2;
  expected_task_count = 2;
  valid_run_count = 4;
  infra_invalid_count = 0;
  pass_1_numerator = 3;
  pass_1_denominator = 4;
  stable_success_task_count = 1;
  stable_task_outcomes = ("t1", true) ∷ ("t2", false) ∷ [];
  task_success_counts = ("t1", 2) ∷ ("t2", 1) ∷ [];
  critical_violation_count = 0;
  mean_cost = whole 1;
  cost_source = none;
  cost_status = none;
  cost_digest = none;
  p50_latency_ms = whole 5;
  integrity_complete = true;
  integrity_issues = [];
}

abbrev candidate : EvaluationSummary
candidate = record reference {
  snapshot_id = "c1";
  candidate_id = some "c1";
  stable_task_outcomes = ("t2", true) ∷ ("t1", true) ∷ [];
  task_success_counts = ("t2", 2) ∷ ("t1", 2) ∷ [];
}

are_paired : verify_pair reference candidate stage_release_id ≡ ok tt
unfolding verify_pair
are_paired = refl

paired_task_bootstrap-IsInterval_example :
    (nets : PairedNets) × (paired_task_bootstrap randrange float_ceil reference candidate
        stage_release_id 40 0
      ≡ ok nets)
    × IsInterval nets
paired_task_bootstrap-IsInterval_example =
    paired_task_bootstrap-IsInterval randrange float_ceil reference candidate stage_release_id 40 0
      in_range monotone are_paired (omega arith)
