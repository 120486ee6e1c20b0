-- ===== src/Gates/Selection.antt =====
-- The updater's selector and the governed selector over one ladder: agentloopgate/gates/selection.py.
pub mod Eligible
pub mod Examined
pub mod Winner
use Prim.Native.String.{◌++◌ as str_append}
use agent_loop_gate.Base.{
  ℕ, ◌+◌, ◌*◌, ◌^◌, String, Bool, true, false, not, ◌&&◌, ◌||◌, Option, none, some, List, [], ◌∷◌,
  ◌++◌, map, Result, ok, err, raise_if, ◌>>◌, ◌>>=◌, ltb, leb, ◌==◌, same_set, is_unique, lookup,
  insert, keys, filter, all, is_some, is_none, if◌then◌else◌,
}
use agent_loop_gate.Base.Sorting.{lex, min_by, sorted, str_lt}
use agent_loop_gate.Base.Decimals
use agent_loop_gate.Base.Decimals.{Decimal, is_zero, div, in_context}
use agent_loop_gate.Schemas.{ArtifactId, Digest, NonEmpty}
use agent_loop_gate.Base.{string_eq, nat_eq}
use agent_loop_gate.Gates.Models.{
  SignedDecimal, CandidateSelectionInput, BaselineSelectionInput, SelectionPolicy, DualSelection,
  legacy, governed, select, hold,
}

-- `SelectionError`, and the exception of a comparison with a missing measure.
pub data SelectionError : Type 0 where
  empty_ladder duplicate_ids mixed_signals ranks_not_unique baseline_without_policy : SelectionError
  no_governed_candidate unsafe_baseline : SelectionError
  lacks_evidence populations_differ type_error : ArtifactId → SelectionError

-- `_within_ratio`
unfoldable pub within_ratio : Decimal → Decimal → Decimal → Bool
unfolding div
within_ratio value baseline maximum =
    if is_zero baseline then is_zero value else Decimals.le (div value baseline) maximum

-- A candidate with its enhanced evidence.
pub record Measured : Type 0 where
  pub item : CandidateSelectionInput
  pub outcomes : List (ArtifactId × Bool)
  pub whole_cost : Decimal
  pub retries : ℕ
  pub timeouts : ℕ
  pub p95 : Decimal
  pub max_latency : Decimal

-- The measures that the governed selector reads without a test.
abbrev measures :
    CandidateSelectionInput
    → List (ArtifactId × Bool)
    → Option Decimal
    → Option ℕ
    → Option ℕ
    → Option Decimal
    → Option Decimal
    → Result SelectionError Measured
measures c outcomes (some whole_cost) (some retries) (some timeouts) (some p95) (some max_latency) =
    ok (record {
      item = c;
      outcomes = outcomes;
      whole_cost = whole_cost;
      retries = retries;
      timeouts = timeouts;
      p95 = p95;
      max_latency = max_latency;
    })
measures c _ _ _ _ _ _ = err (type_error c.candidate_id)

-- The tests on the task population, and the reading of the measures.
abbrev measure_outcomes :
    BaselineSelectionInput
    → CandidateSelectionInput
    → Option (List (ArtifactId × Bool))
    → Result SelectionError Measured
measure_outcomes b c none = err (lacks_evidence c.candidate_id)
measure_outcomes b c (some outcomes) = do
  raise_if (not (same_set (keys outcomes) (keys b.stable_task_outcomes)))
      (populations_differ c.candidate_id)
  measures c outcomes c.whole_attempt_cost_usd c.retry_count c.timeout_count c.p95_latency_ms
      c.max_latency_ms

unfoldable pub measure :
    BaselineSelectionInput → CandidateSelectionInput → Result SelectionError Measured
measure b c = measure_outcomes b c c.stable_task_outcomes

abbrev failed_in : List (ArtifactId × Bool) → ArtifactId → Bool
failed_in outcomes task = elim (lookup task outcomes) [ none ↦ false | some done ↦ not done ]

-- A task that the baseline solves and the candidate does not.
abbrev pub is_regression : List (ArtifactId × Bool) → ArtifactId × Bool → Bool
is_regression outcomes (task, succeeded) = succeeded && failed_in outcomes task

unfoldable pub regressed : BaselineSelectionInput → Measured → List ArtifactId
regressed b m = sorted str_lt (keys (filter (is_regression m.outcomes) b.stable_task_outcomes))

-- `",".join(ids)`
join_commas : List String → String
join_commas [] = ""
join_commas (x ∷ []) = x
join_commas (x ∷ xs) = str_append x (str_append "," (join_commas xs))

abbrev note_if : Bool → String → List String
note_if true s = s ∷ []
note_if false s = []

abbrev regression_note : List ArtifactId → List String
regression_note [] = []
regression_note (t ∷ ts) = str_append "stable_task_regression:" (join_commas (t ∷ ts)) ∷ []

-- The reasons against one candidate.
unfoldable pub reasons : BaselineSelectionInput → SelectionPolicy → Measured → List NonEmpty
unfolding join_commas
reasons b p m =
    note_if (not m.item.evaluation_complete) "evaluation_incomplete"
    ++ (note_if (not (m.item.critical_violations == 0)) "critical_violation"
        ++ (regression_note (regressed b m)
            ++ (note_if (leb m.item.stable_success_task_count b.stable_success_task_count)
                  "no_stable_success_gain"
                ++ (note_if
                      (not (
                        within_ratio m.whole_cost b.whole_attempt_cost_usd
                          p.whole_attempt_cost_ratio_max))
                      "whole_attempt_cost_noninferiority"
                    ++ (note_if (not (within_ratio m.p95 b.p95_latency_ms p.p95_latency_ratio_max))
                          "p95_latency_noninferiority"
                        ++ (note_if (ltb (b.retry_count + p.max_retry_increase) m.retries)
                              "retry_increase"
                            ++ note_if (ltb (b.timeout_count + p.max_timeout_increase) m.timeouts)
                                "timeout_increase"))))))

-- The two locals of the loop over the ladder.
pub record Findings : Type 0 where
  pub notes : List (ArtifactId × List NonEmpty)
  pub eligible : List Measured

abbrev record_reasons : Findings → Measured → List NonEmpty → Findings
record_reasons f m [] = record {
  notes = insert m.item.candidate_id ("eligible_strict_improvement" ∷ []) f.notes;
  eligible = f.eligible ++ m ∷ [];
}
record_reasons f m (r ∷ rs) = record f { notes = insert m.item.candidate_id (r ∷ rs) f.notes }

unfoldable pub examine :
    BaselineSelectionInput
    → SelectionPolicy
    → Findings
    → List CandidateSelectionInput
    → Result SelectionError Findings
unfolding measure reasons
examine b p f [] = ok f
examine b p f (c ∷ cs) = do m ← measure b c; examine b p (record_reasons f m (reasons b p m)) cs

-- The tuple by which eligible candidates are ranked.
abbrev pub governed_key : List (Measured → Measured → Bool)
governed_key =
    (λ a b. ltb b.item.stable_success_task_count a.item.stable_success_task_count)
    ∷ (λ a b. ltb a.timeouts b.timeouts)
    ∷ (λ a b. ltb a.retries b.retries)
    ∷ (λ a b. Decimals.lt a.p95 b.p95)
    ∷ (λ a b. Decimals.lt a.max_latency b.max_latency)
    ∷ (λ a b. Decimals.lt a.whole_cost b.whole_cost)
    ∷ (λ a b. Decimals.lt a.item.mean_cost b.item.mean_cost)
    ∷ (λ a b. Decimals.lt a.item.p50_latency_ms b.item.p50_latency_ms)
    ∷ (λ a b. str_lt a.item.candidate_id b.item.candidate_id)
    ∷ []

abbrev pub best_eligible : List Measured → Option Measured
best_eligible [] = none
best_eligible (m ∷ ms) = some (min_by (lex governed_key) m ms)

-- Negation of a decimal rounds it to the context.
abbrev minus : SignedDecimal → SignedDecimal
minus d = record { negative = not d.negative; magnitude = in_context d.magnitude }

-- A signed decimal's coefficient at another scale, split by its sign.
abbrev above : SignedDecimal → ℕ → ℕ
above d s = if d.negative then 0 else d.magnitude.coeff * 10 ^ s

abbrev below : SignedDecimal → ℕ → ℕ
below d s = if d.negative then d.magnitude.coeff * 10 ^ s else 0

abbrev signed_lt : SignedDecimal → SignedDecimal → Bool
signed_lt a b =
    ltb (above a b.magnitude.scale + below b a.magnitude.scale)
      (above b a.magnitude.scale + below a b.magnitude.scale)

abbrev score_lt : Option SignedDecimal → Option SignedDecimal → Bool
score_lt (some a) (some b) = signed_lt (minus a) (minus b)
score_lt _ _ = false

abbrev rank_lt : Option ℕ → Option ℕ → Bool
rank_lt (some a) (some b) = ltb a b
rank_lt _ _ = false

-- `item.native_rank for item in ladder`, where every rank is given.
abbrev ranks : List CandidateSelectionInput → List ℕ
ranks [] = []
ranks (c ∷ cs) = elim c.native_rank [ none ↦ ranks cs | some r ↦ r ∷ ranks cs ]

abbrev ids : List CandidateSelectionInput → List ArtifactId
ids = map (λ (c : CandidateSelectionInput). c.candidate_id)

-- The choice by the updater's own scores, or else by its ranks.
unfoldable pub native_winner :
    CandidateSelectionInput
    → List CandidateSelectionInput
    → Result SelectionError CandidateSelectionInput
unfolding in_context
native_winner c cs =
    if all (λ (x : CandidateSelectionInput). is_some x.native_score) (c ∷ cs)
    then ok (
        min_by
          (lex (
            (λ (a b : CandidateSelectionInput). score_lt a.native_score b.native_score)
            ∷ (λ (a b : CandidateSelectionInput). str_lt a.candidate_id b.candidate_id)
            ∷ []))
          c cs)
    else if all (λ (x : CandidateSelectionInput). is_some x.native_rank) (c ∷ cs)
    then (do
      raise_if (not (is_unique (ranks (c ∷ cs)))) ranks_not_unique
      ok (
          min_by
            (lex (
              (λ (a b : CandidateSelectionInput). rank_lt a.native_rank b.native_rank)
              ∷ (λ (a b : CandidateSelectionInput). str_lt a.candidate_id b.candidate_id)
              ∷ []))
            c cs))
    else err mixed_signals

abbrev pub is_governed : CandidateSelectionInput → Bool
is_governed c = c.evaluation_complete && c.critical_violations == 0

abbrev pub legacy_key : List (CandidateSelectionInput → CandidateSelectionInput → Bool)
legacy_key =
    (λ a b. ltb b.stable_success_task_count a.stable_success_task_count)
    ∷ (λ a b. Decimals.lt a.mean_cost b.mean_cost)
    ∷ (λ a b. Decimals.lt a.p50_latency_ms b.p50_latency_ms)
    ∷ (λ a b. str_lt a.candidate_id b.candidate_id)
    ∷ []

abbrev legacy_winner : List CandidateSelectionInput → Result SelectionError CandidateSelectionInput
legacy_winner [] = err no_governed_candidate
legacy_winner (c ∷ cs) = ok (min_by (lex legacy_key) c cs)

-- Digests over canonical JSON.
module _ (ladder_digest : List CandidateSelectionInput → NonEmpty)
    (baseline_digest : BaselineSelectionInput → Digest)
    (policy_digest : SelectionPolicy → Digest) where
  abbrev governed_result :
      List CandidateSelectionInput
      → ArtifactId
      → BaselineSelectionInput
      → SelectionPolicy
      → List (ArtifactId × List NonEmpty)
      → Option Measured
      → DualSelection
  governed_result ladder native b p notes o = record {
    schema_version = governed;
    native_candidate_id = native;
    agentloopgate_candidate_id = elim o [ none ↦ none | some m ↦ some m.item.candidate_id ];
    ladder_digest = ladder_digest ladder;
    agentloopgate_decision = some (elim o [ none ↦ hold | some m ↦ select ]);
    decision_reason = some (elim o [
      | none ↦ "no_candidate_passed_baseline_bound_selection_policy"
      | some m ↦ "strict_no-regression_selection_improvement"
    ]);
    baseline_snapshot_id = some b.snapshot_id;
    baseline_digest = some (baseline_digest b);
    policy_digest = some (policy_digest p);
    governance_findings = some notes;
  }

  -- `_select_with_baseline`
  unfoldable pub select_with_baseline :
      List CandidateSelectionInput
      → ArtifactId
      → BaselineSelectionInput
      → SelectionPolicy
      → Result SelectionError DualSelection
  unfolding examine
  select_with_baseline ladder native b p = do
    raise_if (not b.evaluation_complete || not (b.critical_violations == 0)) unsafe_baseline
    f ← examine b p (record { notes = []; eligible = [] }) ladder
    ok (governed_result ladder native b p f.notes (best_eligible f.eligible))

  unfoldable pub select_legacy :
      List CandidateSelectionInput → ArtifactId → Result SelectionError DualSelection
  select_legacy ladder native = do
    w ← legacy_winner (filter is_governed ladder)
    ok (record {
      schema_version = legacy;
      native_candidate_id = native;
      agentloopgate_candidate_id = some w.candidate_id;
      ladder_digest = ladder_digest ladder;
      agentloopgate_decision = none;
      decision_reason = none;
      baseline_snapshot_id = none;
      baseline_digest = none;
      policy_digest = none;
      governance_findings = none;
    })

  abbrev with_baseline :
      List CandidateSelectionInput
      → ArtifactId
      → Option BaselineSelectionInput
      → Option SelectionPolicy
      → Result SelectionError DualSelection
  with_baseline ladder native (some b) (some p) = select_with_baseline ladder native b p
  with_baseline ladder native none none = select_legacy ladder native
  with_baseline ladder native _ _ = err baseline_without_policy

  -- `DualSelector.select`
  unfoldable pub select_candidates :
      List CandidateSelectionInput
      → Option BaselineSelectionInput
      → Option SelectionPolicy
      → Result SelectionError DualSelection
  unfolding native_winner select_with_baseline select_legacy
  select_candidates [] baseline policy = err empty_ladder
  select_candidates (c ∷ cs) baseline policy = do
    raise_if (not (is_unique (ids (c ∷ cs)))) duplicate_ids
    w ← native_winner c cs
    with_baseline (c ∷ cs) w.candidate_id baseline policy
