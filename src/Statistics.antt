-- ===== src/Statistics.antt =====
-- The paired bootstrap of agentloopgate/experiment/statistics.py. Parameters: the states of Python's
-- random generator with randrange, and the ceiling of a Decimal as a float. The product of a
-- probability and a length is exact, as it has far fewer than 28 digits.
use agent_loop_gate.Base.{
  ℕ, zero, suc, ◌-◌, ◌*◌, String, Bool, true, false, not, ◌||◌, Option, none, some, List, [], ◌∷◌,
  Result, ok, err, raise_if, ◌>>◌, ◌>>=◌, same, keys, map, lookup, length, leb, same_set, string_eq,
  if◌then◌else◌, ◌==◌,
}
use agent_loop_gate.Base.Int.{ℤ, pos, sub_ℕ, ◌+ℤ◌, ltb_ℤ}
use agent_loop_gate.Base.Decimals.{Decimal}
use agent_loop_gate.Base.Sorting.{sorted, str_lt}
use agent_loop_gate.Schemas.{
  ArtifactId, Pool, update_source, update_check, selection, release_id, release_ood, pool_eq,
}
use agent_loop_gate.Evaluation.Metrics.{EvaluationSummary}
pub mod Order
pub mod Interval

pub data FormalStage : Type 0 where
  stage_update_source stage_update_check stage_selection : FormalStage
  stage_release_id stage_release_ood stage_replay : FormalStage

-- The pool of a stage: that of its name, and the source pool of a replay.
abbrev pub expected_pool : FormalStage → Pool
expected_pool stage_update_source = update_source
expected_pool stage_update_check = update_check
expected_pool stage_selection = selection
expected_pool stage_release_id = release_id
expected_pool stage_release_ood = release_ood
expected_pool stage_replay = update_source

abbrev pub has_none : {A : Type 0} → List A → Bool
has_none [] = true
has_none (x ∷ xs) = false

-- `_verify_pair`
unfoldable pub verify_pair :
    EvaluationSummary → EvaluationSummary → FormalStage → Result String (Unit {0})
verify_pair reference candidate stage = do
  raise_if (not (same reference.pool candidate.pool)) "paired bootstrap pools differ"
  raise_if (not (same reference.pool (expected_pool stage)))
      "paired bootstrap stage does not match its pool"
  raise_if (not (reference.trials == candidate.trials)) "paired bootstrap trial counts differ"
  raise_if
      (not (same_set (keys reference.stable_task_outcomes) (keys candidate.stable_task_outcomes)))
      "paired bootstrap task populations differ"
  raise_if (has_none reference.stable_task_outcomes) "paired bootstrap has no tasks"
  raise_if (not reference.integrity_complete || not candidate.integrity_complete)
      "paired bootstrap requires complete evidence"
  raise_if (not (reference.infra_invalid_count == 0) || not (candidate.infra_invalid_count == 0))
      "paired bootstrap cannot include Infra Invalid runs"
  ok tt

-- `int(b)`
abbrev pub int_of : Bool → ℕ
int_of true = 1
int_of false = 0

-- `d[k]`
abbrev pub entry : {A : Type 0} → Option A → Result String A
entry none = err "KeyError"
entry (some a) = ok a

-- `differences`
unfoldable pub differences :
    EvaluationSummary → EvaluationSummary → List ArtifactId → Result String (List ℤ)
differences reference candidate [] = ok []
differences reference candidate (task ∷ tasks) = do
  new ← entry (lookup task candidate.stable_task_outcomes)
  old ← entry (lookup task reference.stable_task_outcomes)
  rest ← differences reference candidate tasks
  ok (sub_ℕ (int_of new) (int_of old) ∷ rest)

-- `values[i]`
abbrev pub item_at : {A : Type 0} → ℕ → List A → Option A
item_at i [] = none
item_at zero (x ∷ xs) = some x
item_at (suc i) (x ∷ xs) = item_at i xs

abbrev pub larger : ℕ → ℕ → ℕ
larger a b = if leb a b then b else a

abbrev pub smaller : ℕ → ℕ → ℕ
smaller a b = if leb a b then a else b

-- The sum of a list of integers.
abbrev pub total : List ℤ → ℤ
total [] = pos 0
total (d ∷ ds) = d +ℤ total ds

-- `_nearest_rank` of a probability in thousandths.
module _ (float_ceil : Decimal → ℕ) where
  abbrev pub rank_of : ℕ → ℕ → ℕ
  rank_of thousandths n = larger 1 (float_ceil (record { coeff = thousandths * n; scale = 3 }))

  unfoldable pub nearest_rank : List ℤ → ℕ → Result String ℤ
  nearest_rank values thousandths = do
    raise_if (has_none values) "cannot take a bootstrap percentile of no samples"
    entry (item_at (smaller (rank_of thousandths (length values) - 1) (length values - 1)) values)

module _ {Rng : Type 0} (randrange : Rng → ℕ → ℕ × Rng) where
  -- `sum(differences[rng.randrange(n)] for _ in range(count))`
  unfoldable pub resampled_net : List ℤ → ℕ → Rng → Result String (ℤ × Rng)
  resampled_net ds zero rng = ok (pos 0, rng)
  resampled_net ds (suc count) rng = do
    d ← entry (item_at (randrange rng (length ds)).0 ds)
    rest ← resampled_net ds count (randrange rng (length ds)).1
    ok (d +ℤ rest.0, rest.1)

  unfoldable pub resampled_nets : List ℤ → ℕ → Rng → Result String (List ℤ)
  unfolding resampled_net
  resampled_nets ds zero rng = ok []
  resampled_nets ds (suc resamples) rng = do
    net ← resampled_net ds (length ds) rng
    rest ← resampled_nets ds resamples net.1
    ok (net.0 ∷ rest)

-- The numbers of a comparison, before they are divided by the number of tasks.
pub record PairedNets : Type 0 where
  pub task_count : ℕ
  pub observed_net : ℤ
  pub lower_net : ℤ
  pub upper_net : ℤ

module _ {Rng : Type 0} (randrange : Rng → ℕ → ℕ × Rng) (float_ceil : Decimal → ℕ) where
  unfoldable pub nets_of : List ℤ → ℕ → Rng → Result String PairedNets
  unfolding resampled_nets sorted nearest_rank
  nets_of ds resamples rng = do
    nets ← resampled_nets randrange ds resamples rng
    lower ← nearest_rank float_ceil (sorted ltb_ℤ nets) 25
    upper ← nearest_rank float_ceil (sorted ltb_ℤ nets) 975
    ok (record {
      task_count = length ds;
      observed_net = total ds;
      lower_net = lower;
      upper_net = upper;
    })

  -- paired_task_bootstrap up to its payload, from the generator of the effective seed.
  unfoldable pub paired_task_bootstrap :
      EvaluationSummary → EvaluationSummary → FormalStage → ℕ → Rng → Result String PairedNets
  unfolding verify_pair sorted differences nets_of
  paired_task_bootstrap reference candidate stage resamples rng = do
    verify_pair reference candidate stage
    ds ← differences reference candidate (sorted str_lt (keys reference.stable_task_outcomes))
    nets_of ds resamples rng
