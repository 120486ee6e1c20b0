-- ===== src/Statistics/Interval.antt =====
-- The interval of the paired bootstrap.
use agent_loop_gate.Base.{
  ℕ, zero, suc, ◌-◌, ◌*◌, ◌≤◌, ◌<◌, Bool, true, false, not, some, List, [], ◌∷◌, ok, same, contains,
  keys, lookup-keys, length, same_set, string_eq, ◌==◌, ◌≡◌, refl, inl, inr, arith, All, Occurs,
  raise_if-eq-ok, contains-Occurs, Occurs-is_subset,
}
use agent_loop_gate.Base.Int.{ℤ, pos, sub_ℕ, ◌+ℤ◌, ◌≤ℤ◌, ltb_ℤ, IsWithin, IsWithin-add}
use agent_loop_gate.Base.Decimals.{Decimal, le}
use agent_loop_gate.Base.Sorting.{sorted, str_lt, Occurs-sorted}
use agent_loop_gate.Schemas.{ArtifactId, pool_eq}
use agent_loop_gate.Evaluation.Metrics.{EvaluationSummary}
use agent_loop_gate.Statistics.{
  FormalStage, expected_pool, verify_pair, differences, item_at, smaller, total, rank_of,
  nearest_rank, resampled_net, resampled_nets, PairedNets, nets_of, paired_task_bootstrap, has_none,
  int_of,
}
use agent_loop_gate.Statistics.Order.{
  All-sorted, sorted-IsAscending, item_at-All, item_at-IsAscending, item_at-length, length-sorted,
}

-- A task that both summaries have an outcome of.
abbrev IsShared : EvaluationSummary → EvaluationSummary → ArtifactId → Type 0
IsShared reference candidate task =
    (contains task (keys reference.stable_task_outcomes) ≡ true)
    × (contains task (keys candidate.stable_task_outcomes) ≡ true)

one_step : (new old : Bool) → IsWithin 1 (sub_ℕ (int_of new) (int_of old))
one_step true true = (omega arith, omega arith)
one_step true false = (omega arith, omega arith)
one_step false true = (omega arith, omega arith)
one_step false false = (omega arith, omega arith)

differences_total :
    (reference candidate : EvaluationSummary) (tasks : List ArtifactId)
    → All (IsShared reference candidate) tasks
    → (ds : List ℤ) × (differences reference candidate tasks ≡ ok ds)
      × (length ds ≡ length tasks)
      × All (IsWithin 1) ds
unfolding differences
differences_total reference candidate [] h = ([], refl, refl, tt)
differences_total reference candidate (task ∷ tasks) h =
    let (old, e) = lookup-keys task reference.stable_task_outcomes h.0.0 in
    let (new, f) = lookup-keys task candidate.stable_task_outcomes h.0.1 in
    let (ds, g, size, within) = differences_total reference candidate tasks h.1 in
    (
      sub_ℕ (int_of new) (int_of old) ∷ ds,
      rw (e, f, g) refl,
      omega (arith, size),
      (one_step new old, within),
    )

total-IsWithin : (ds : List ℤ) → All (IsWithin 1) ds → IsWithin (length ds) (total ds)
total-IsWithin [] h = (omega arith, omega arith)
total-IsWithin (d ∷ ds) h =
    let (p, q) = IsWithin-add 1 (length ds) d (total ds) h.0 (total-IsWithin ds h.1) in
    (omega (arith, p), omega (arith, q))

-- `rng.randrange(n)` is below n.
abbrev pub IsInRange : {Rng : Type 0} → (Rng → ℕ → ℕ × Rng) → Type 0
IsInRange {Rng} randrange = (r : Rng) (n : ℕ) → 0 < n → (randrange r n).0 < n

-- The ceiling of a larger number is not smaller.
abbrev pub IsMonotone : (Decimal → ℕ) → Type 0
IsMonotone float_ceil = (a b : Decimal) → le a b ≡ true → float_ceil a ≤ float_ceil b

module _ {Rng : Type 0} (randrange : Rng → ℕ → ℕ × Rng) (in_range : IsInRange randrange) where
  resampled_net_total :
      (ds : List ℤ) (count : ℕ) (rng : Rng)
      → 0 < length ds
      → All (IsWithin 1) ds
      → (net : ℤ) × (next : Rng) × (resampled_net randrange ds count rng ≡ ok (net, next))
        × IsWithin count net
  unfolding resampled_net
  resampled_net_total ds zero rng some_task h = (pos 0, rng, refl, (omega arith, omega arith))
  resampled_net_total ds (suc count) rng some_task h =
      let drawn = randrange rng (length ds) in
      let (d, e) = item_at-length ds drawn.0 (omega (arith, in_range rng (length ds) some_task)) in
      let (net, next, f, within) = resampled_net_total ds count drawn.1 some_task h in
      let (p, q) = IsWithin-add 1 count d net (item_at-All (IsWithin 1) ds drawn.0 d h e) within in
      (d +ℤ net, next, rw (e, f) refl, (omega (arith, p), omega (arith, q)))

  resampled_nets_total :
      (ds : List ℤ) (resamples : ℕ) (rng : Rng)
      → 0 < length ds
      → All (IsWithin 1) ds
      → (nets : List ℤ) × (resampled_nets randrange ds resamples rng ≡ ok nets)
        × (length nets ≡ resamples)
        × All (IsWithin (length ds)) nets
  unfolding resampled_nets
  resampled_nets_total ds zero rng some_task h = ([], refl, refl, tt)
  resampled_nets_total ds (suc resamples) rng some_task h =
      let (net, next, e, within) = resampled_net_total ds (length ds) rng some_task h in
      let (nets, f, size, all_within) = resampled_nets_total ds resamples next some_task h in
      (net ∷ nets, rw (e, f) refl, omega (arith, size), (within, all_within))

module _ (float_ceil : Decimal → ℕ) where
  nearest_rank_total :
      (values : List ℤ) (thousandths : ℕ)
      → 0 < length values
      → (a : ℤ) × (nearest_rank float_ceil values thousandths ≡ ok a)
        × (item_at
              (smaller (rank_of float_ceil thousandths (length values) - 1) (length values - 1))
              values
            ≡ some a)
  unfolding nearest_rank
  nearest_rank_total [] thousandths h = absurd (omega (arith, h))
  nearest_rank_total (x ∷ xs) thousandths h =
      let place =
        smaller (rank_of float_ceil thousandths (length (x ∷ xs)) - 1) (length (x ∷ xs) - 1) in
      let (a, e) = item_at-length (x ∷ xs) place (ground arith) in (a, rw e refl, e)

  -- The place of the smaller probability is not after that of the larger.
  place_le :
      (n : ℕ)
      → IsMonotone float_ceil
      → smaller (rank_of float_ceil 25 n - 1) (n - 1)
        ≤ smaller (rank_of float_ceil 975 n - 1) (n - 1)
  place_le n mono =
      let h =
        mono (record { coeff = 25 * n; scale = 3 }) (record { coeff = 975 * n; scale = 3 })
          (ground arith) in
      ground (arith, h)

-- The numbers of a comparison are bounded by its tasks, and its interval is not reversed.
abbrev pub IsInterval : PairedNets → Type 0
IsInterval nets =
    (0 < nets.task_count)
    × IsWithin nets.task_count nets.observed_net
    × IsWithin nets.task_count nets.lower_net
    × IsWithin nets.task_count nets.upper_net
    × (nets.lower_net ≤ℤ nets.upper_net)

module _ {Rng : Type 0} (randrange : Rng → ℕ → ℕ × Rng) (float_ceil : Decimal → ℕ)
    (in_range : IsInRange randrange) (mono : IsMonotone float_ceil) where
  nets_of-IsInterval :
      (ds : List ℤ) (resamples : ℕ) (rng : Rng)
      → 0 < length ds
      → 0 < resamples
      → All (IsWithin 1) ds
      → (nets : PairedNets) × (nets_of randrange float_ceil ds resamples rng ≡ ok nets)
        × IsInterval nets
  unfolding nets_of
  nets_of-IsInterval ds resamples rng some_task some_sample h =
      let (nets, e, size, within) =
        resampled_nets_total randrange in_range ds resamples rng some_task h in
      let ordered = sorted ltb_ℤ nets in
      let filled : 0 < length ordered =
        omega (arith, length-sorted ltb_ℤ nets, size, some_sample) in
      let bounded = All-sorted (IsWithin (length ds)) nets within in
      let (lower, f, low) = nearest_rank_total float_ceil ordered 25 filled in
      let (upper, g, high) = nearest_rank_total float_ceil ordered 975 filled in
      (
        record {
          task_count = length ds;
          observed_net = total ds;
          lower_net = lower;
          upper_net = upper;
        },
        rw (e, f, g) refl,
        (
          some_task,
          total-IsWithin ds h,
          item_at-All (IsWithin (length ds)) ordered _ lower bounded low,
          item_at-All (IsWithin (length ds)) ordered _ upper bounded high,
          item_at-IsAscending ordered _ _ lower upper (sorted-IsAscending nets)
              (place_le float_ceil (length ordered) mono) low high,
        ),
      )

All-IsShared :
    (reference candidate : EvaluationSummary) (tasks : List ArtifactId)
    → ((t : ArtifactId) → Occurs t tasks → IsShared reference candidate t)
    → All (IsShared reference candidate) tasks
All-IsShared reference candidate [] f = tt
All-IsShared reference candidate (t ∷ tasks) f =
    (f t (inl refl), All-IsShared reference candidate tasks (λ u o. f u (inr o)))

filled_keys : (d : List (ArtifactId × Bool)) → has_none d ≡ false → 0 < length (keys d)
filled_keys [] h = cc h
filled_keys ((t, b) ∷ d) h = omega arith

-- What _verify_pair leaves: tasks of both summaries, and at least one.
verify_pair-IsShared :
    (reference candidate : EvaluationSummary) (stage : FormalStage)
    → verify_pair reference candidate stage ≡ ok tt
    → (0 < length (keys reference.stable_task_outcomes))
      × ((t : ArtifactId)
          → Occurs t (keys reference.stable_task_outcomes)
          → IsShared reference candidate t)
unfolding verify_pair
verify_pair-IsShared reference candidate stage h =
    let (a, h1) = raise_if-eq-ok (not (same reference.pool candidate.pool)) _ _ h in
    let (b, h2) = raise_if-eq-ok (not (same reference.pool (expected_pool stage))) _ _ h1 in
    let (c, h3) = raise_if-eq-ok (not (reference.trials == candidate.trials)) _ _ h2 in
    let old = keys reference.stable_task_outcomes in
    let new = keys candidate.stable_task_outcomes in
    let (d, h4) = raise_if-eq-ok (not (same_set old new)) _ _ h3 in
    let (e, h5) = raise_if-eq-ok (has_none reference.stable_task_outcomes) _ _ h4 in
    (
      filled_keys reference.stable_task_outcomes e,
      λ t o. (
        contains-Occurs t old o,
        contains-Occurs t new (Occurs-is_subset t old new (ground (arith, d)) o),
      ),
    )

-- Where _verify_pair accepts two summaries and a resample is asked for, the bootstrap returns: no
-- index or key is missing. The observed and both resampled nets lie between minus and plus the
-- number of tasks, which is positive, and the lower net is not above the upper. Assumed are that
-- randrange stays below its bound and that the float ceiling is monotone.
pub paired_task_bootstrap-IsInterval :
    {Rng : Type 0} (randrange : Rng → ℕ → ℕ × Rng) (float_ceil : Decimal → ℕ)
    (reference candidate : EvaluationSummary) (stage : FormalStage) (resamples : ℕ) (rng : Rng)
    → IsInRange randrange
    → IsMonotone float_ceil
    → verify_pair reference candidate stage ≡ ok tt
    → 0 < resamples
    → (nets : PairedNets) × (paired_task_bootstrap randrange float_ceil reference candidate stage
          resamples rng
        ≡ ok nets)
      × IsInterval nets
unfolding paired_task_bootstrap
paired_task_bootstrap-IsInterval randrange float_ceil reference candidate stage resamples rng
      in_range mono verified some_sample =
    let old = keys reference.stable_task_outcomes in
    let (filled, shared) = verify_pair-IsShared reference candidate stage verified in
    let (ds, e, size, within) = differences_total reference candidate (sorted str_lt old) (
      All-IsShared reference candidate (sorted str_lt old)
        (λ t o. shared t ((Occurs-sorted str_lt t old).0 o))) in
    let some_task : 0 < length ds = omega (arith, size, length-sorted str_lt old, filled) in
    let (nets, f, interval) =
      nets_of-IsInterval randrange float_ceil in_range mono ds resamples rng some_task some_sample
        within in
    (nets, rw (verified, e) f, interval)
