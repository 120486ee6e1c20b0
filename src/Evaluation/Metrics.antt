-- ===== src/Evaluation/Metrics.antt =====
-- The aggregation of runs of agentloopgate/evaluation/metrics.py.
use agent_loop_gate.Base.{
  string_eq, nat_eq, ◌⊎◌, ℕ, zero, suc, ◌+◌, ◌-◌, ◌/◌, ◌%◌, String, Bool, true, false, not, ◌&&◌,
  ◌||◌, Option, none, some, List, [], ◌∷◌, ◌++◌, map, Result, ok, err, raise_if, ◌>>◌, ◌>>=◌, Eq,
  same, same_iff, lookup, insert, keys, values, contains, same_set, is_unique, length, all, any,
  count, ltb, leb, ◌==◌, if◌then◌else◌, is_some, is_none, str_eq, ◌≡◌, ◌↔◌, arith, eq_iff, and_true,
  ap, ◌++◌,
}
use agent_loop_gate.Base.Decimals.{Decimal, whole, add, div, sum_from, lt, is_zero}
use agent_loop_gate.Base.Int.{ℤ, sub_ℕ}
use agent_loop_gate.Base.Sorting.{sorted, str_lt}
use agent_loop_gate.Schemas.Run.{RunRecord}
use agent_loop_gate.Schemas.{
  ArtifactId, Digest, Pool, pool_eq, RunValidity, run_validity_eq, valid, infra_invalid,
}
pub mod Summary
pub mod Compare
pub mod Counts
pub mod Coverage

pub data EvaluationError : Type 0 where
  duplicate_run_id context_mismatch unexpected_task trial_outside_range : EvaluationError
  duplicate_valid_trial missing_cost : EvaluationError
  inconsistent_summary : String → EvaluationError
  pools_differ trials_differ populations_differ counts_differ missing_candidate_id missing_task :
      EvaluationError

pub record EvaluationContext : Type 0 where
  pub pool : Pool
  pub snapshot_id : ArtifactId
  pub candidate_id : Option ArtifactId
  pub expected_task_ids : List ArtifactId
  pub trials : ℕ

-- `task_ids_are_unique`, and the bounds of the fields.
unfoldable pub check_context : EvaluationContext → Result String (Unit {0})
check_context c = do
  raise_if (length c.expected_task_ids == 0 || c.trials == 0) "expected_task_ids and trials"
  raise_if (not (is_unique c.expected_task_ids)) "expected_task_ids must be unique"
  ok tt

pub data SummaryVersion : Type 0 where
  summary_1_0 summary_1_1 : SummaryVersion

pub data CostStatus : Type 0 where
  exact partial unavailable : CostStatus

-- Why a summary is not complete.
pub data IntegrityIssue : Type 0 where
  missing_valid_trials unverified_evidence : IntegrityIssue

pub record EvaluationSummary : Type 0 where
  pub schema_version : SummaryVersion
  pub pool : Pool
  pub snapshot_id : ArtifactId
  pub candidate_id : Option ArtifactId
  pub trials : ℕ
  pub expected_task_count : ℕ
  pub valid_run_count : ℕ
  pub infra_invalid_count : ℕ
  pub pass_1_numerator : ℕ
  pub pass_1_denominator : ℕ
  pub stable_success_task_count : ℕ
  pub stable_task_outcomes : List (ArtifactId × Bool)
  pub task_success_counts : List (ArtifactId × ℕ)
  pub critical_violation_count : ℕ
  pub mean_cost : Decimal
  -- `direct_task_attempt_model_calls` or nothing
  pub cost_source : Option (Unit {0})
  pub cost_status : Option CostStatus
  pub cost_digest : Option Digest
  pub p50_latency_ms : Decimal
  pub integrity_complete : Bool
  pub integrity_issues : List IntegrityIssue

-- `self.stable_task_outcomes[task_id] != (count == self.trials)`
abbrev is_conflict : Option Bool → Bool → Bool
is_conflict none b = true
is_conflict (some true) b = not b
is_conflict (some false) b = b

-- The loop of the validator over the success counts.
unfoldable pub check_counts :
    ℕ → List (ArtifactId × Bool) → List (ArtifactId × ℕ) → Result String (Unit {0})
check_counts trials stable [] = ok tt
check_counts trials stable ((task, n) ∷ counts) = do
  raise_if (not (leb n trials)) "task success count is outside the trial range"
  raise_if (is_conflict (lookup task stable) (n == trials))
      "stable task outcome conflicts with success count"
  check_counts trials stable counts

-- The version 1.1 has all the cost evidence, the version 1.0 none.
abbrev check_cost : SummaryVersion → EvaluationSummary → Result String (Unit {0})
check_cost summary_1_1 s = do
  raise_if (is_none s.cost_source || is_none s.cost_status || is_none s.cost_digest)
      "evaluation summary 1.1 requires direct cost evidence"
  ok tt
check_cost summary_1_0 s = do
  raise_if (is_some s.cost_source || is_some s.cost_status || is_some s.cost_digest)
      "evaluation summary 1.0 cannot contain direct cost evidence"
  ok tt

-- `task_metrics_are_consistent`
unfoldable pub check_summary : EvaluationSummary → Result String (Unit {0})
unfolding check_counts
check_summary s = do
  raise_if (not (same_set (keys s.stable_task_outcomes) (keys s.task_success_counts)))
      "task outcome and success-count populations differ"
  check_counts s.trials s.stable_task_outcomes s.task_success_counts
  check_cost s.schema_version s

abbrev same_pair : ArtifactId × ℕ → ArtifactId × ℕ → Bool
same_pair (a, m) (b, n) = str_eq a b && (m == n)

pair_of : {a b : ArtifactId} {m n : ℕ} → a ≡ b → m ≡ n → ◌≡◌ {A = ArtifactId × ℕ} (a, m) (b, n)
pair_of h k = rw (h, k)

pub pair_beq_iff : (p q : ArtifactId × ℕ) → (same_pair p q ≡ true) ↔ (p ≡ q)
pair_beq_iff (a, m) (b, n) = (
  λ h. pair_of ((eq_iff a b).0 (and_true _ _ h).0) ((same_iff m n).0 (and_true _ _ h).1),
  λ h. rw ((eq_iff a b).1 (ap (λ x. x.0) h), (same_iff m n).1 (ap (λ x. x.1) h)),
)

-- The pairs of a task and a trial.
instance abbrev pub pair_eq : Eq (ArtifactId × ℕ)
pair_eq = record { beq = same_pair; beq_iff = pair_beq_iff }

-- What the loop of `summarize` has collected.
pub record Tally : Type 0 where
  pub valid_by_pair : List ((ArtifactId × ℕ) × RunRecord)
  pub infra_count : ℕ
  pub is_unverified : Bool
  pub seen_run_ids : List ArtifactId

abbrev pub empty_tally : Tally
empty_tally = record {
  valid_by_pair = [];
  infra_count = 0;
  is_unverified = false;
  seen_run_ids = [];
}

abbrev same_candidate : Option ArtifactId → Option ArtifactId → Bool
same_candidate none none = true
same_candidate (some a) (some b) = str_eq a b
same_candidate _ _ = false

-- A run as it is counted, by its validity.
abbrev score_run : Tally → RunRecord → RunValidity → Result EvaluationError Tally
score_run t r infra_invalid = ok (record t { infra_count = t.infra_count + 1 })
score_run t r valid = do
  raise_if (contains (r.task_id, r.trial_index) (keys t.valid_by_pair)) duplicate_valid_trial
  ok (record t { valid_by_pair = insert (r.task_id, r.trial_index) r t.valid_by_pair })

module _ (verified : List ArtifactId) (c : EvaluationContext) where
  -- The body of the loop of `summarize`.
  unfoldable pub tally_run : Tally → RunRecord → Result EvaluationError Tally
  tally_run t r = do
    raise_if (contains r.run_id t.seen_run_ids) duplicate_run_id
    raise_if
        (not (same r.pool c.pool)
          || not (str_eq r.snapshot_id c.snapshot_id)
          || not (same_candidate r.candidate_id c.candidate_id))
        context_mismatch
    raise_if (not (contains r.task_id c.expected_task_ids)) unexpected_task
    raise_if (not (leb 1 r.trial_index && leb r.trial_index c.trials)) trial_outside_range
    score_run
        (record t {
          seen_run_ids = r.run_id ∷ t.seen_run_ids;
          is_unverified = t.is_unverified || not (contains r.run_id verified);
        })
        r r.run_validity

  unfoldable pub tally_runs : Tally → List RunRecord → Result EvaluationError Tally
  unfolding tally_run
  tally_runs t [] = ok t
  tally_runs t (r ∷ rs) = do next ← tally_run t r; tally_runs next rs

-- `range(1, trials + 1)`
abbrev trial_range : ℕ → List ℕ
trial_range zero = []
trial_range (suc n) = trial_range n ++ (suc n ∷ [])

abbrev pub pairs_of : ArtifactId → List ℕ → List (ArtifactId × ℕ)
pairs_of task ns = map (λ n. (task, n)) ns

abbrev expected_pairs : List ArtifactId → ℕ → List (ArtifactId × ℕ)
expected_pairs [] trials = []
expected_pairs (task ∷ tasks) trials =
    pairs_of task (trial_range trials) ++ expected_pairs tasks trials

-- `record.success is True`
abbrev is_true : Option Bool → Bool
is_true (some true) = true
is_true _ = false

abbrev is_success : RunRecord → Bool
is_success r = is_true r.success

abbrev succeeded_in : Option RunRecord → Bool
succeeded_in none = false
succeeded_in (some r) = is_success r

abbrev succeeded : List ((ArtifactId × ℕ) × RunRecord) → ArtifactId → ℕ → Bool
succeeded runs task n = succeeded_in (lookup (task, n) runs)
