-- ===== src/Evaluation/Metrics/Coverage.antt =====
-- What a complete summary of agentloopgate/evaluation/metrics.py covers.
use mathlib.Core.Path.{subst}
use agent_loop_gate.Base.{
  string_eq, Eq, ℕ, zero, suc, ◌≤◌, Bool, true, false, not, ◌&&◌, ◌||◌, List, [], ◌∷◌, ok,
  >>=-eq-ok, raise_if-eq-ok, ok-injective, same, insert, keys, values, contains, same_set, All,
  Occurs, Occurs-is_subset, Occurs-append, leb, str_eq, if◌then◌else◌, ◌≡◌, inl, inr, refl, sym, ap,
  ◌∙◌, arith, Bool-cases, and_true,
}
use agent_loop_gate.Schemas.Run.{RunRecord}
use agent_loop_gate.Schemas.{ArtifactId, pool_eq, RunValidity, valid, infra_invalid}
use agent_loop_gate.Evaluation.Metrics.{
  EvaluationContext, EvaluationSummary, duplicate_run_id, context_mismatch, unexpected_task,
  trial_outside_range, duplicate_valid_trial, Tally, empty_tally, pair_eq, same_candidate,
  score_run, tally_run, tally_runs, check_summary, trial_range, pairs_of, expected_pairs,
}
use agent_loop_gate.Evaluation.Metrics.Summary.{
  costs_of, build_summary, summarize, issues_of, is_clean,
}
use agent_loop_gate.Evaluation.Metrics.Counts.{validated-eq-ok}

insert-All :
    {K V : Type 0} ⦃e : Eq K⦄ (P : K × V → Type 0) (k : K) (v : V) (d : List (K × V))
    → P (k, v)
    → All P d
    → All P (insert k v d)
insert-All P k v [] p h = (p, tt)
insert-All P k v ((j, w) ∷ d) p h = pick (same k j) (p, h.1) (h.0, insert-All P k v d p h.1)
  where
    pick :
        (b : Bool)
        → All P ((k, v) ∷ d)
        → All P ((j, w) ∷ insert k v d)
        → All P (if b then (k, v) ∷ d else (j, w) ∷ insert k v d)
    pick true x y = x
    pick false x y = y

-- A key of the dictionary has a value.
Occurs-key :
    {K V : Type 0} (P : K × V → Type 0) (k : K) (d : List (K × V))
    → Occurs k (keys d)
    → All P d
    → (v : V) × P (k, v)
Occurs-key P k [] o h = elim o [ ]
Occurs-key P k ((j, w) ∷ d) (inl e) h = (w, subst (λ x. P (x, w)) (sym e) h.0)
Occurs-key P k ((j, w) ∷ d) (inr o) h = Occurs-key P k d o h.1

trial_range-Occurs : (n m : ℕ) → 1 ≤ n → n ≤ m → Occurs n (trial_range m)
trial_range-Occurs n zero h k = absurd (omega (arith, h, k))
trial_range-Occurs n (suc m) h k = elim (Bool-cases (leb n m)) [
  | inl p ↦
      (Occurs-append n (trial_range m) (suc m ∷ [])).1
        (inl (trial_range-Occurs n m h (ground arith)))
  | inr p ↦ (Occurs-append n (trial_range m) (suc m ∷ [])).1 (inr (inl (ground arith)))
]

pairs_of-Occurs :
    (task : ArtifactId) (n : ℕ) (ns : List ℕ) → Occurs n ns → Occurs (task, n) (pairs_of task ns)
pairs_of-Occurs task n [] o = elim o [ ]
pairs_of-Occurs task n (m ∷ ns) (inl e) = inl (ap (λ x. (task, x)) e)
pairs_of-Occurs task n (m ∷ ns) (inr o) = inr (pairs_of-Occurs task n ns o)

expected_pairs-Occurs :
    (task : ArtifactId) (n trials : ℕ) (tasks : List ArtifactId)
    → Occurs task tasks
    → 1 ≤ n
    → n ≤ trials
    → Occurs (task, n) (expected_pairs tasks trials)
expected_pairs-Occurs task n trials [] o h k = elim o [ ]
expected_pairs-Occurs task n trials (t ∷ ts) (inl e) h k =
    (Occurs-append (task, n) (pairs_of t (trial_range trials)) (expected_pairs ts trials)).1 (
      inl (
        subst (λ x. Occurs (task, n) (pairs_of x (trial_range trials))) e
          (pairs_of-Occurs task n (trial_range trials) (trial_range-Occurs n trials h k))))
expected_pairs-Occurs task n trials (t ∷ ts) (inr o) h k =
    (Occurs-append (task, n) (pairs_of t (trial_range trials)) (expected_pairs ts trials)).1
      (inr (expected_pairs-Occurs task n trials ts o h k))

-- A run of the records, valid, of the task and the trial of its key.
abbrev pub Stands : List RunRecord → (ArtifactId × ℕ) × RunRecord → Type 0
Stands records (k, r) =
    Occurs r records × (k ≡ (r.task_id, r.trial_index)) × (r.run_validity ≡ valid)

module _ (verified : List ArtifactId) (c : EvaluationContext) (records : List RunRecord) where
  score_run-Stands :
      (t : Tally) (r : RunRecord) (v : RunValidity) {t' : Tally}
      → r.run_validity ≡ v
      → Occurs r records
      → All (Stands records) t.valid_by_pair
      → score_run t r v ≡ ok t'
      → All (Stands records) t'.valid_by_pair
  score_run-Stands t r infra_invalid e o h k =
      subst (λ (t : Tally). All (Stands records) t.valid_by_pair) (ok-injective k) h
  score_run-Stands t r valid e o h k =
      let (fresh, k1) =
        raise_if-eq-ok (contains (r.task_id, r.trial_index) (keys t.valid_by_pair))
          duplicate_valid_trial _ k in
      subst (λ (t : Tally). All (Stands records) t.valid_by_pair) (ok-injective k1)
        (insert-All (Stands records) (r.task_id, r.trial_index) r t.valid_by_pair (o, refl, e) h)

  tally_runs-Stands :
      (t : Tally) (rs : List RunRecord) {t' : Tally}
      → ((r : RunRecord) → Occurs r rs → Occurs r records)
      → All (Stands records) t.valid_by_pair
      → tally_runs verified c t rs ≡ ok t'
      → All (Stands records) t'.valid_by_pair
  unfolding tally_runs tally_run
  tally_runs-Stands t [] o h k =
      subst (λ (t : Tally). All (Stands records) t.valid_by_pair) (ok-injective k) h
  tally_runs-Stands t (r ∷ rs) o h k =
      let (next, e, k1) = >>=-eq-ok (tally_run verified c t r) _ k in
      let h1 = (raise_if-eq-ok (contains r.run_id t.seen_run_ids) duplicate_run_id _ e).1 in
      let h2 =
        (raise_if-eq-ok
          (not (same r.pool c.pool)
            || not (str_eq r.snapshot_id c.snapshot_id)
            || not (same_candidate r.candidate_id c.candidate_id))
          context_mismatch _ h1).1 in
      let h3 =
        (raise_if-eq-ok (not (contains r.task_id c.expected_task_ids)) unexpected_task _ h2).1 in
      let h4 =
        (raise_if-eq-ok (not (leb 1 r.trial_index && leb r.trial_index c.trials))
          trial_outside_range _ h3).1 in
      tally_runs-Stands next rs (λ x p. o x (inr p))
        (score_run-Stands _ r r.run_validity refl (o r (inl refl)) h h4) k1

  clean-expected :
      (t : Tally)
      → is_clean (issues_of c t) ≡ true
      → same_set (keys t.valid_by_pair) (expected_pairs c.expected_task_ids c.trials) ≡ true
  clean-expected t h =
      elim (Bool-cases
        (same_set (keys t.valid_by_pair) (expected_pairs c.expected_task_ids c.trials))) [
          | inl p ↦ p
          | inr p ↦ cc (rw p at h)
        ]

  -- A summary of `summarize` that calls itself complete leaves no trial out: every expected task has, for every
  -- trial of the frozen range, a valid run among the records.
  pub summarize-covers :
      {s : EvaluationSummary}
      → summarize verified c records ≡ ok s
      → s.integrity_complete ≡ true
      → (task : ArtifactId) (n : ℕ) → Occurs task c.expected_task_ids
      → 1 ≤ n
      → n ≤ c.trials
      → (r : RunRecord) × Occurs r records
        × (r.task_id ≡ task)
        × (r.trial_index ≡ n)
        × (r.run_validity ≡ valid)
  unfolding summarize build_summary
  summarize-covers h complete task n o low high =
      let (t, e, h1) = >>=-eq-ok (tally_runs verified c empty_tally records) _ h in
      let (costs, k, h2) = >>=-eq-ok (costs_of (values t.valid_by_pair)) _ h1 in
      let built =
        validated-eq-ok (build_summary c t costs) (check_summary (build_summary c t costs)) h2 in
      let clean : is_clean (issues_of c t) ≡ true =
        ap (λ (s : EvaluationSummary). s.integrity_complete) built ∙ complete in
      let sets = and_true _ _ (clean-expected t clean) in
      let found =
        Occurs-is_subset (task, n) (expected_pairs c.expected_task_ids c.trials)
          (keys t.valid_by_pair) sets.1
          (expected_pairs-Occurs task n c.trials c.expected_task_ids o low high) in
      let (r, (p, q, v)) =
        Occurs-key (Stands records) (task, n) t.valid_by_pair found
          (tally_runs-Stands empty_tally records (λ x p. p) tt e) in
      (r, p, sym (ap (λ x. x.0) q), sym (ap (λ x. x.1) q), v)
