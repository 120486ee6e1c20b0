-- ===== src/Evaluation/Metrics/Counts.antt =====
-- The runs that `summarize` of agentloopgate/evaluation/metrics.py counts.
use agent_loop_gate.Base.{
  String, err, string_eq, ℕ, suc, ◌+◌, Bool, true, false, not, ◌&&◌, ◌||◌, List, [], ◌∷◌, ◌++◌,
  Result, ok, >>=-eq-ok, raise_if-eq-ok, ok-injective, same, insert, keys, values, contains, length,
  count, leb, str_eq, if◌then◌else◌, ◌≡◌, refl, ap, ◌∙◌, arith, Bool-cases, inl, inr, Eq,
  length-append,
}
use mathlib.Core.Path.{subst}
use agent_loop_gate.Schemas.Run.{RunRecord}
use agent_loop_gate.Schemas.{ArtifactId, pool_eq, RunValidity, valid, infra_invalid}
use agent_loop_gate.Evaluation.Metrics.{
  EvaluationContext, EvaluationSummary, duplicate_run_id, context_mismatch, unexpected_task,
  trial_outside_range, duplicate_valid_trial, Tally, empty_tally, pair_eq, check_summary,
  same_candidate, score_run, tally_run, tally_runs, is_success,
}
use agent_loop_gate.Evaluation.Metrics.Summary.{costs_of, build_summary, summarize, validated}

abbrev pub is_valid : RunValidity → Bool
is_valid valid = true
is_valid infra_invalid = false

abbrev pub is_valid_run : RunRecord → Bool
is_valid_run r = is_valid r.run_validity

abbrev pub is_scored_success : RunRecord → Bool
is_scored_success r = is_valid_run r && is_success r

values-insert :
    {K V : Type 0} ⦃e : Eq K⦄ (k : K) (v : V) (d : List (K × V))
    → contains k (keys d) ≡ false
    → values (insert k v d) ≡ values d ++ (v ∷ [])
values-insert k v [] h = refl
values-insert k v ((j, w) ∷ d) h = elim (Bool-cases (same k j)) [
  | inl p ↦ cc (p, h)
  | inr p ↦ rw p (ap (λ vs. w ∷ vs) (values-insert k v d (rw p at h)))
]

count-append :
    {A : Type 0} (p : A → Bool) (xs ys : List A) → count p (xs ++ ys) ≡ count p xs + count p ys
count-append p [] ys = omega arith
count-append p (x ∷ xs) ys = ground (arith, count-append p xs ys)

abbrev one_if : Bool → ℕ
one_if true = 1
one_if false = 0

one_if-if : (b : Bool) → (if b then 1 else 0) ≡ one_if b
one_if-if true = refl
one_if-if false = refl

suc_if : (b : Bool) (n : ℕ) → (if b then suc n else n) ≡ one_if b + n
suc_if true n = omega arith
suc_if false n = omega arith

count-∷ :
    {A : Type 0} (p : A → Bool) (x : A) (xs : List A) → count p (x ∷ xs) ≡ one_if (p x) + count p xs
count-∷ p x xs = suc_if (p x) (count p xs)

pub validated-eq-ok :
    (s : EvaluationSummary) (m : Result String (Unit {0})) {s' : EvaluationSummary}
    → validated s m ≡ ok s'
    → s ≡ s'
validated-eq-ok s (ok u) h = ok-injective h
validated-eq-ok s (err e) h = cc

-- `t'` counts so many valid runs, invalid ones and successes more than `t`.
abbrev Adds : Tally → Tally → ℕ → ℕ → ℕ → Type 0
Adds t t' v f p =
    (length (values t'.valid_by_pair) ≡ length (values t.valid_by_pair) + v)
    × (t'.infra_count ≡ t.infra_count + f)
    × (count is_success (values t'.valid_by_pair) ≡ count is_success (values t.valid_by_pair) + p)

score_run-Adds :
    (t : Tally) (r : RunRecord) (k : RunValidity) {t' : Tally}
    → score_run t r k ≡ ok t'
    → Adds t t'
        (one_if (is_valid k))
        (one_if (not (is_valid k)))
        (one_if (is_valid k && is_success r))
score_run-Adds t r infra_invalid h =
    subst (λ t'. Adds t t' 0 1 0) (ok-injective h) (omega arith, omega arith, omega arith)
score_run-Adds t r valid h =
    let (fresh, h1) =
      raise_if-eq-ok (contains (r.task_id, r.trial_index) (keys t.valid_by_pair))
        duplicate_valid_trial _ h in
    let grown = values-insert (r.task_id, r.trial_index) r t.valid_by_pair fresh in
    subst (λ t'. Adds t t' 1 0 (one_if (is_success r))) (ok-injective h1)
      (
        ap length grown ∙ length-append (values t.valid_by_pair) (r ∷ []),
        omega arith,
        ap (count is_success) grown
            ∙ count-append is_success (values t.valid_by_pair) (r ∷ [])
            ∙ ap (λ n. count is_success (values t.valid_by_pair) + n) (one_if-if (is_success r)),
      )

module _ (verified : List ArtifactId) (c : EvaluationContext) where
  tally_run-Adds :
      (t : Tally) (r : RunRecord) {t' : Tally}
      → tally_run verified c t r ≡ ok t'
      → Adds t t'
          (one_if (is_valid r.run_validity))
          (one_if (not (is_valid r.run_validity)))
          (one_if (is_valid r.run_validity && is_success r))
  unfolding tally_run
  tally_run-Adds t r h =
      let h1 = (raise_if-eq-ok (contains r.run_id t.seen_run_ids) duplicate_run_id _ h).1 in
      let h2 =
        (raise_if-eq-ok
          (not (same r.pool c.pool)
            || not (str_eq r.snapshot_id c.snapshot_id)
            || not (same_candidate r.candidate_id c.candidate_id))
          context_mismatch _ h1).1 in
      let h3 =
        (raise_if-eq-ok (not (contains r.task_id c.expected_task_ids)) unexpected_task _ h2).1 in
      let h4 =
        (raise_if-eq-ok (not (leb 1 r.trial_index && leb r.trial_index c.trials))
          trial_outside_range _ h3).1 in
      score_run-Adds _ r r.run_validity h4

  tally_runs-Adds :
      (t : Tally) (rs : List RunRecord) {t' : Tally}
      → tally_runs verified c t rs ≡ ok t'
      → Adds t t'
          (count is_valid_run rs)
          (count (λ r. not (is_valid_run r)) rs)
          (count is_scored_success rs)
  unfolding tally_runs
  tally_runs-Adds t [] h =
      subst (λ t'. Adds t t' 0 0 0) (ok-injective h) (omega arith, omega arith, omega arith)
  tally_runs-Adds t (r ∷ rs) h =
      let (next, e, h1) = >>=-eq-ok (tally_run verified c t r) _ h in
      let step = tally_run-Adds t r e in
      let rest = tally_runs-Adds next rs h1 in
      (
        omega (arith, step.0, rest.0, count-∷ is_valid_run r rs),
        omega (arith, step.1, rest.1, count-∷ (λ x. not (is_valid_run x)) r rs),
        omega (arith, step.2, rest.2, count-∷ is_scored_success r rs),
      )

-- The counts of a summary that `summarize` returns are those of the recorded runs: the valid runs, the runs that the
-- infrastructure invalidated, and the successes among the valid ones only. An invalidated
-- run never counts as a success or in the denominator.
pub summarize-counts :
    (verified : List ArtifactId) (c : EvaluationContext) (records : List RunRecord)
    {s : EvaluationSummary}
    → summarize verified c records ≡ ok s
    → (s.valid_run_count ≡ count is_valid_run records)
      × (s.infra_invalid_count ≡ count (λ r. not (is_valid_run r)) records)
      × (s.pass_1_numerator ≡ count is_scored_success records)
      × (s.pass_1_denominator ≡ count is_valid_run records)
unfolding summarize build_summary
summarize-counts verified c records h =
    let (t, e, h1) = >>=-eq-ok (tally_runs verified c empty_tally records) _ h in
    let (costs, k, h2) = >>=-eq-ok (costs_of (values t.valid_by_pair)) _ h1 in
    let adds = tally_runs-Adds verified c empty_tally records e in
    subst
      (λ (s : EvaluationSummary).
        (s.valid_run_count ≡ count is_valid_run records)
        × (s.infra_invalid_count ≡ count (λ r. not (is_valid_run r)) records)
        × (s.pass_1_numerator ≡ count is_scored_success records)
        × (s.pass_1_denominator ≡ count is_valid_run records))
      (validated-eq-ok (build_summary c t costs) (check_summary (build_summary c t costs)) h2)
      (omega (arith, adds.0), omega (arith, adds.1), omega (arith, adds.2), omega (arith, adds.0))
