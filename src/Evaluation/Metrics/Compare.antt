-- ===== src/Evaluation/Metrics/Compare.antt =====
-- `compare` of agentloopgate/evaluation/metrics.py.
use agent_loop_gate.Base.{
  string_eq, nat_eq, ◌⊎◌, ℕ, zero, suc, Bool, true, false, not, Option, none, some, List, [], ◌∷◌,
  Result, ok, err, raise_if, ◌>>◌, ◌>>=◌, >>=-eq-ok, raise_if-eq-ok, ok-injective, same, lookup,
  keys, same_set, length, Occurs, ◌==◌, if◌then◌else◌, ◌≡◌, ◌↔◌, refl, sym, ap, ◌∙◌, arith, inl,
  inr,
}
use mathlib.Core.Path.{subst}
use agent_loop_gate.Base.Decimals.{Decimal, whole, div, is_zero}
use agent_loop_gate.Base.Int.{ℤ, sub_ℕ}
use agent_loop_gate.Base.Sorting.{sorted, str_lt, Occurs-sorted}
use agent_loop_gate.Schemas.{ArtifactId, Pool, pool_eq}
use agent_loop_gate.Evaluation.Metrics.{
  EvaluationSummary, EvaluationError, pools_differ, trials_differ, populations_differ,
  counts_differ, missing_candidate_id, missing_task,
}

pub record EvaluationComparison : Type 0 where
  pub pool : Pool
  pub baseline_snapshot_id : ArtifactId
  pub candidate_id : ArtifactId
  pub stable_task_net : ℤ
  pub catastrophic_regressions : ℕ
  pub catastrophic_task_ids : List ArtifactId
  pub mean_cost_ratio : Option Decimal
  pub p50_latency_ratio : Option Decimal

-- `_ratio`
unfoldable pub ratio_of : Decimal → Decimal → Option Decimal
ratio_of numerator denominator =
    if is_zero denominator
    then (if is_zero numerator then some (whole 1) else none)
    else some (div numerator denominator)

abbrev keep_task :
    ArtifactId → Bool → Option ℕ → List ArtifactId → Result EvaluationError (List ArtifactId)
keep_task task false n rest = ok rest
keep_task task true none rest = err missing_task
keep_task task true (some n) rest = ok (if n == 0 then task ∷ rest else rest)

-- The tasks that the baseline solves in every trial and the candidate in none.
unfoldable pub catastrophic :
    List (ArtifactId × Bool) → List (ArtifactId × ℕ) → Result EvaluationError (List ArtifactId)
catastrophic [] counts = ok []
catastrophic ((task, baseline_stable) ∷ outcomes) counts = do
  rest ← catastrophic outcomes counts
  keep_task task baseline_stable (lookup task counts) rest

abbrev named_candidate : Option ArtifactId → Result EvaluationError ArtifactId
named_candidate none = err missing_candidate_id
named_candidate (some id) = ok id

unfoldable pub compare :
    EvaluationSummary → EvaluationSummary → Result EvaluationError EvaluationComparison
unfolding ratio_of catastrophic
compare baseline candidate = do
  raise_if (not (same baseline.pool candidate.pool)) pools_differ
  raise_if (not (baseline.trials == candidate.trials)) trials_differ
  raise_if
      (not (same_set (keys baseline.stable_task_outcomes) (keys candidate.stable_task_outcomes)))
      populations_differ
  raise_if (not (same_set (keys baseline.task_success_counts) (keys candidate.task_success_counts)))
      counts_differ
  id ← named_candidate candidate.candidate_id
  found ← catastrophic baseline.stable_task_outcomes candidate.task_success_counts
  ok (record {
    pool = candidate.pool;
    baseline_snapshot_id = baseline.snapshot_id;
    candidate_id = id;
    stable_task_net = sub_ℕ candidate.stable_success_task_count baseline.stable_success_task_count;
    catastrophic_regressions = length (sorted str_lt found);
    catastrophic_task_ids = sorted str_lt found;
    mean_cost_ratio = ratio_of candidate.mean_cost baseline.mean_cost;
    p50_latency_ratio = ratio_of candidate.p50_latency_ms baseline.p50_latency_ms;
  })

named :
    {a t : ArtifactId} {b : Bool} → a ≡ t → b ≡ true → ◌≡◌ {A = ArtifactId × Bool} (a, true) (t, b)
named h k = rw (h, k)

Occurs-keep_task :
    (a task : ArtifactId) (b : Bool) (o : Option ℕ) (rest : List ArtifactId) {r : List ArtifactId}
    → keep_task task b o rest ≡ ok r
    → Occurs a r ↔ (((a ≡ task) × (b ≡ true) × (o ≡ some 0)) ⊎ Occurs a rest)
Occurs-keep_task a task false o rest h =
    subst (λ l. Occurs a l ↔ (((a ≡ task) × (false ≡ true) × (o ≡ some 0)) ⊎ Occurs a rest))
      (ok-injective h) (λ q. inr q, λ q. elim q [ inl e ↦ cc e.1 | inr q ↦ q ])
Occurs-keep_task a task true none rest h = cc
Occurs-keep_task a task true (some zero) rest h =
    subst
      (λ l.
        Occurs a l
        ↔ (((a ≡ task) × (true ≡ true) × (◌≡◌ {A = Option ℕ} (some 0) (some 0))) ⊎ Occurs a rest))
      (ok-injective h)
      (
        λ q. elim q [ inl e ↦ inl (e, refl, refl) | inr q ↦ inr q ],
        λ q. elim q [ inl e ↦ inl e.0 | inr q ↦ inr q ],
      )
Occurs-keep_task a task true (some (suc n)) rest {r = r} h =
    let nonzero : (suc n == 0) ≡ false = ground arith in
    let kept : rest ≡ r =
      ap (λ (b : Bool). if b then task ∷ rest else rest) (sym nonzero) ∙ ok-injective h in
    subst
      (λ l. Occurs a l ↔ (
        ((a ≡ task) × (true ≡ true) × (◌≡◌ {A = Option ℕ} (some (suc n)) (some 0)))
        ⊎ Occurs a rest))
      kept (λ q. inr q, λ q. elim q [ inl e ↦ cc e.2 | inr q ↦ q ])

-- The task was stable in the baseline, and the candidate never solved it.
abbrev pub IsLost : ArtifactId → List (ArtifactId × Bool) → List (ArtifactId × ℕ) → Type 0
IsLost a outcomes counts = Occurs (a, true) outcomes × (lookup a counts ≡ some 0)

catastrophic-IsLost :
    (a : ArtifactId) (outcomes : List (ArtifactId × Bool)) (counts : List (ArtifactId × ℕ))
    {r : List ArtifactId}
    → catastrophic outcomes counts ≡ ok r
    → Occurs a r ↔ IsLost a outcomes counts
unfolding catastrophic
catastrophic-IsLost a [] counts h =
    subst (λ l. Occurs a l ↔ (⊥ × (lookup a counts ≡ some 0))) (ok-injective h)
      (λ q. elim q [ ], λ q. q.0)
catastrophic-IsLost a ((task, b) ∷ outcomes) counts h =
    let (rest, e, h1) = >>=-eq-ok (catastrophic outcomes counts) _ h in
    let ih = catastrophic-IsLost a outcomes counts e in
    let kept = Occurs-keep_task a task b (lookup task counts) rest h1 in
    (
      λ q. elim (kept.0 q) [
        | inl k ↦ (inl (named k.0 k.1), ap (λ t. lookup t counts) k.0 ∙ k.2)
        | inr o ↦ let l = ih.0 o in (inr l.0, l.1)
      ],
      λ q. kept.1 (elim q.0 [
        | inl k ↦ inl (
          ap (λ t. t.0) k,
          sym (ap (λ t. t.1) k),
          ap (λ t. lookup t counts) (sym (ap (λ t. t.0) k)) ∙ q.1,
        )
        | inr o ↦ inr (ih.1 (o, q.1))
      ]),
    )

-- The catastrophic tasks of a comparison are exactly those that the baseline solves in
-- every trial and for which the candidate has no success at all.
pub compare-IsLost :
    (baseline candidate : EvaluationSummary) {r : EvaluationComparison}
    → compare baseline candidate ≡ ok r
    → (a : ArtifactId)
    → Occurs a r.catastrophic_task_ids
      ↔ IsLost a baseline.stable_task_outcomes candidate.task_success_counts
unfolding compare
compare-IsLost baseline candidate h a =
    let h1 = (raise_if-eq-ok (not (same baseline.pool candidate.pool)) pools_differ _ h).1 in
    let h2 = (raise_if-eq-ok (not (baseline.trials == candidate.trials)) trials_differ _ h1).1 in
    let h3 =
      (raise_if-eq-ok
        (not (same_set (keys baseline.stable_task_outcomes) (keys candidate.stable_task_outcomes)))
        populations_differ _ h2).1 in
    let h4 =
      (raise_if-eq-ok
        (not (same_set (keys baseline.task_success_counts) (keys candidate.task_success_counts)))
        counts_differ _ h3).1 in
    let (id, e, h5) = >>=-eq-ok (named_candidate candidate.candidate_id) _ h4 in
    let (found, k, h6) =
      >>=-eq-ok (catastrophic baseline.stable_task_outcomes candidate.task_success_counts) _ h5 in
    let lost =
      catastrophic-IsLost a baseline.stable_task_outcomes candidate.task_success_counts k in
    let kept = Occurs-sorted str_lt a found in
    subst
      (λ (c : EvaluationComparison).
        Occurs a c.catastrophic_task_ids
        ↔ IsLost a baseline.stable_task_outcomes candidate.task_success_counts)
      (ok-injective h6) (λ q. lost.0 (kept.0 q), λ q. kept.1 (lost.1 q))
