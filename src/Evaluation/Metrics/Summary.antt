-- ===== src/Evaluation/Metrics/Summary.antt =====
-- `summarize` of agentloopgate/evaluation/metrics.py.
use agent_loop_gate.Base.{
  string_eq, nat_eq, ℕ, zero, suc, ◌+◌, ◌-◌, ◌/◌, ◌%◌, Bool, true, false, not, Option, none, some,
  List, [], ◌∷◌, ◌++◌, map, Result, ok, err, raise_if, ◌>>◌, ◌>>=◌, same, same_iff, lookup, keys,
  values, contains-Occurs, same_set, length, length-append, all, count, count-le-length, Occurs,
  leb, ◌==◌, if◌then◌else◌, Bool-cases, ◌≡◌, refl, sym, ap, ◌∙◌, arith, inl, inr, String, is_subset,
}
use agent_loop_gate.Base.Decimals.{Decimal, whole, add, div, sum_from, lt}
use agent_loop_gate.Base.Sorting.{sorted, str_lt}
use agent_loop_gate.Schemas.Run.{RunRecord}
use agent_loop_gate.Schemas.{ArtifactId, run_validity_eq}
use agent_loop_gate.Evaluation.Metrics.{
  EvaluationContext, EvaluationSummary, EvaluationError, missing_cost, inconsistent_summary,
  summary_1_0, IntegrityIssue, missing_valid_trials, unverified_evidence, Tally, empty_tally,
  pair_eq, tally_runs, trial_range, expected_pairs, is_success, succeeded, check_summary,
  check_counts, is_conflict,
}

-- `valid_by_pair` sums of the summary: `sum(costs, Decimal(0))` needs every cost.
abbrev cost_and :
    Option Decimal → Result EvaluationError (List Decimal) → Result EvaluationError (List Decimal)
cost_and none rest = err missing_cost
cost_and (some cost) rest = do costs ← rest; ok (cost ∷ costs)

unfoldable pub costs_of : List RunRecord → Result EvaluationError (List Decimal)
costs_of [] = ok []
costs_of (r ∷ rs) = cost_and r.cost (costs_of rs)

abbrev nth : List Decimal → ℕ → Decimal
nth [] n = whole 0
nth (x ∷ xs) zero = x
nth (x ∷ xs) (suc n) = nth xs n

abbrev median_of : List Decimal → ℕ → Decimal
median_of xs middle =
    if length xs % 2 == 0
    then div (add (nth xs (middle - 1)) (nth xs middle)) (whole 2)
    else nth xs middle

-- `_median`
unfoldable pub median : List Decimal → Decimal
median [] = whole 0
median (x ∷ xs) = median_of (x ∷ xs) (length (x ∷ xs) / 2)

abbrev mean_of : List Decimal → Decimal
mean_of [] = whole 0
mean_of (x ∷ xs) = div (sum_from (whole 0) (x ∷ xs)) (whole (length (x ∷ xs)))

abbrev stable_outcomes :
    List ((ArtifactId × ℕ) × RunRecord) → ℕ → List ArtifactId → List (ArtifactId × Bool)
stable_outcomes runs trials tasks =
    map (λ task. (task, all (succeeded runs task) (trial_range trials))) tasks

abbrev success_counts :
    List ((ArtifactId × ℕ) × RunRecord) → ℕ → List ArtifactId → List (ArtifactId × ℕ)
success_counts runs trials tasks =
    map (λ task. (task, count (succeeded runs task) (trial_range trials))) tasks

abbrev violation_sum : List RunRecord → ℕ
violation_sum [] = 0
violation_sum (r ∷ rs) = length r.critical_violations + violation_sum rs

abbrev pub is_missing_trials : EvaluationContext → Tally → Bool
is_missing_trials c t =
    not (same_set (keys t.valid_by_pair) (expected_pairs c.expected_task_ids c.trials))

-- `sorted(issues)`: the names of the two issues stand in this order.
abbrev pub issues_of : EvaluationContext → Tally → List IntegrityIssue
issues_of c t =
    (if is_missing_trials c t then missing_valid_trials ∷ [] else [])
    ++ (if t.is_unverified then unverified_evidence ∷ [] else [])

abbrev pub is_clean : List IntegrityIssue → Bool
is_clean [] = true
is_clean (i ∷ is) = false

-- The summary that `summarize` constructs.
unfoldable pub build_summary : EvaluationContext → Tally → List Decimal → EvaluationSummary
unfolding median
build_summary c t costs =
    let runs = values t.valid_by_pair in
    let tasks = sorted str_lt c.expected_task_ids in
    let stable = stable_outcomes t.valid_by_pair c.trials tasks in
    record {
      schema_version = summary_1_0;
      pool = c.pool;
      snapshot_id = c.snapshot_id;
      candidate_id = c.candidate_id;
      trials = c.trials;
      expected_task_count = length c.expected_task_ids;
      valid_run_count = length runs;
      infra_invalid_count = t.infra_count;
      pass_1_numerator = count is_success runs;
      pass_1_denominator = length runs;
      stable_success_task_count = count (λ b. b) (values stable);
      stable_task_outcomes = stable;
      task_success_counts = success_counts t.valid_by_pair c.trials tasks;
      critical_violation_count = violation_sum runs;
      mean_cost = mean_of costs;
      cost_source = none;
      cost_status = none;
      cost_digest = none;
      p50_latency_ms = median (sorted lt (map (λ r. whole r.latency_ms) runs));
      integrity_complete = is_clean (issues_of c t);
      integrity_issues = issues_of c t;
    }

-- A summary is constructed when its validator accepts it.
abbrev pub validated :
    EvaluationSummary → Result String (Unit {0}) → Result EvaluationError EvaluationSummary
validated s (ok u) = ok s
validated s (err m) = err (inconsistent_summary m)

unfoldable pub summarize :
    List ArtifactId → EvaluationContext → List RunRecord → Result EvaluationError EvaluationSummary
unfolding build_summary check_summary tally_runs costs_of
summarize verified c records = do
  t ← tally_runs verified c empty_tally records
  costs ← costs_of (values t.valid_by_pair)
  validated (build_summary c t costs) (check_summary (build_summary c t costs))

keys-map :
    {V : Type 0} (f : ArtifactId → V) (tasks : List ArtifactId)
    → keys (map (λ (task : ArtifactId). (task, f task)) tasks) ≡ tasks
keys-map f [] = refl
keys-map f (task ∷ tasks) = ap (λ ts. task ∷ ts) (keys-map f tasks)

lookup-map :
    {V : Type 0} (f : ArtifactId → V) (task : ArtifactId) (tasks : List ArtifactId)
    → Occurs task tasks
    → lookup task (map (λ (task : ArtifactId). (task, f task)) tasks) ≡ some (f task)
lookup-map f task [] h = elim h [ ]
lookup-map f task (x ∷ xs) h = elim (Bool-cases (same task x)) [
  | inl p ↦ rw p (ap (λ y. some (f y)) (sym ((same_iff task x).0 p)))
  | inr p ↦ rw p (elim h [ inl e ↦ cc (p, (same_iff task x).1 e) | inr o ↦ lookup-map f task xs o ])
]

-- All succeed exactly if the number that succeed is their number.
all-count : {A : Type 0} (p : A → Bool) (xs : List A) → all p xs ≡ (count p xs == length xs)
all-count p [] = refl
all-count p (x ∷ xs) = ground (arith, all-count p xs, count-le-length p xs)

length-trial_range : (n : ℕ) → length (trial_range n) ≡ n
length-trial_range zero = refl
length-trial_range (suc n) =
    ground (arith, length-append (trial_range n) (suc n ∷ []), length-trial_range n)

is_subset_refl :
    (xs ys : List ArtifactId)
    → ((a : ArtifactId) → Occurs a xs → Occurs a ys)
    → is_subset xs ys ≡ true
is_subset_refl [] ys h = refl
is_subset_refl (x ∷ xs) ys h =
    ground (arith, contains-Occurs x ys (h x (inl refl)), is_subset_refl xs ys (λ a o. h a (inr o)))

populations_pass :
    (xs ys : List ArtifactId) {tasks : List ArtifactId} {rest : Result String (Unit {0})}
    → xs ≡ tasks
    → ys ≡ tasks
    → rest ≡ ok tt
    → (raise_if (not (same_set xs ys)) "task outcome and success-count populations differ"
        >> (rest
            >> (raise_if false "evaluation summary 1.0 cannot contain direct cost evidence"
                >> ok tt)))
      ≡ ok tt
populations_pass xs ys {tasks = tasks} h k l = rw (h, k, l, is_subset_refl tasks tasks (λ a o. o))

conflict_self : (b : Bool) → is_conflict (some b) b ≡ false
conflict_self true = refl
conflict_self false = refl

conflict-count :
    (p : ℕ → Bool) (ns : List ℕ) (n : ℕ)
    → length ns ≡ n
    → is_conflict (some (all p ns)) (count p ns == n) ≡ false
conflict-count p ns n h = rw (all-count p ns, h) (conflict_self (count p ns == n))

both_pass :
    (a b : Bool) (m n : String) (rest : Result String (Unit {0}))
    → a ≡ true
    → b ≡ false
    → rest ≡ ok tt
    → (raise_if (not a) m >> (raise_if b n >> rest)) ≡ ok tt
both_pass a b m n rest h k l = rw (h, k, l)

check_counts-map :
    (trials : ℕ) (stable : List (ArtifactId × Bool)) (p : ArtifactId → ℕ → Bool)
    (tasks : List ArtifactId)
    → ((task : ArtifactId)
        → Occurs task tasks
        → lookup task stable ≡ some (all (p task) (trial_range trials)))
    → check_counts trials stable
        (map (λ (task : ArtifactId). (task, count (p task) (trial_range trials))) tasks)
      ≡ ok tt
unfolding check_counts
check_counts-map trials stable p [] h = refl
check_counts-map trials stable p (task ∷ tasks) h =
    both_pass (leb (count (p task) (trial_range trials)) trials) _ _ _ _
      (ground (arith, count-le-length (p task) (trial_range trials), length-trial_range trials))
      (ap (λ o. is_conflict o (count (p task) (trial_range trials) == trials)) (h task (inl refl))
        ∙ conflict-count (p task) (trial_range trials) trials (length-trial_range trials))
      (check_counts-map trials stable p tasks (λ t o. h t (inr o)))

-- The validator accepts every summary that is built.
check_summary-build_summary :
    (c : EvaluationContext) (t : Tally) (costs : List Decimal)
    → check_summary (build_summary c t costs) ≡ ok tt
unfolding check_summary build_summary
check_summary-build_summary c t costs =
    let tasks = sorted str_lt c.expected_task_ids in
    let p = succeeded t.valid_by_pair in
    populations_pass _ _ (keys-map (λ task. all (p task) (trial_range c.trials)) tasks)
      (keys-map (λ task. count (p task) (trial_range c.trials)) tasks)
      (check_counts-map c.trials (stable_outcomes t.valid_by_pair c.trials tasks) p tasks
        (λ task o. lookup-map (λ x. all (p x) (trial_range c.trials)) task tasks o))

-- `summarize` never fails on its own validator: once the runs are tallied without a conflict
-- and every valid run has a cost, it returns the summary that it built.
pub summarize_total :
    (verified : List ArtifactId) (c : EvaluationContext) (records : List RunRecord) {t : Tally}
    {costs : List Decimal}
    → tally_runs verified c empty_tally records ≡ ok t
    → costs_of (values t.valid_by_pair) ≡ ok costs
    → summarize verified c records ≡ ok (build_summary c t costs)
unfolding summarize
summarize_total verified c records {t = t} {costs = costs} h k =
    rw (h, k, check_summary-build_summary c t costs)
