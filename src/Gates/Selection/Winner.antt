-- ===== src/Gates/Selection/Winner.antt =====
-- What the governed selector selects, and when it abstains.
use agent_loop_gate.Base.{
  false, not, ◌||◌, Option, none, some, List, [], ◌∷◌, ok, >>=-eq-ok, raise_if-eq-ok, ok-injective,
  Occurs, All-Occurs, is_unique, filter, string_eq, ◌≡◌, refl, ap, sym, ◌⊎◌, inl, inr, ◌==◌,
}
use agent_loop_gate.Base.Sorting.{lex}
use mathlib.Core.Path.{subst}
use agent_loop_gate.Schemas.{ArtifactId, Digest, NonEmpty}
use agent_loop_gate.Gates.Models.{
  CandidateSelectionInput, BaselineSelectionInput, SelectionPolicy, DualSelection, check_selection,
  select, hold,
}
use agent_loop_gate.Gates.Selection.{
  Measured, Findings, measure, examine, governed_key, best_eligible, select_with_baseline,
  select_legacy, select_candidates, governed_result, native_winner, legacy_winner, is_governed,
  with_baseline, ids,
}
use agent_loop_gate.Gates.Selection.Eligible.{IsEligible}
use agent_loop_gate.Gates.Selection.Examined.{
  IsFound, examine-IsFound, found-examine, best_eligible-some, best_eligible-none,
}

-- What is true of the measurement that the governed selector selects.
pub record IsBest (b : BaselineSelectionInput) (p : SelectionPolicy)
    (ladder : List CandidateSelectionInput) (m : Measured) : Type 0 where
  pub listed : Occurs m.item ladder
  -- It is what the selector measures of the candidate against the baseline.
  pub measured : measure b m.item ≡ ok m
  pub eligible : IsEligible b p m
  -- No eligible candidate of the ladder ranks before it.
  pub least :
      (c : CandidateSelectionInput) (n : Measured)
      → Occurs c ladder
      → measure b c ≡ ok n
      → IsEligible b p n
      → lex governed_key n m ≡ false

module _ (ladder_digest : List CandidateSelectionInput → NonEmpty)
    (baseline_digest : BaselineSelectionInput → Digest)
    (policy_digest : SelectionPolicy → Digest) where
  abbrev Verdict :
      BaselineSelectionInput
      → SelectionPolicy
      → List CandidateSelectionInput
      → Option Measured
      → Type 0
  Verdict b p ladder none =
      (c : CandidateSelectionInput) (n : Measured)
      → Occurs c ladder
      → measure b c ≡ ok n
      → ¬ IsEligible b p n
  Verdict b p ladder (some m) = IsBest b p ladder m

  best_eligible-Verdict :
      (b : BaselineSelectionInput) (p : SelectionPolicy) (ladder : List CandidateSelectionInput)
      (f : Findings) (o : Option Measured)
      → examine b p (record { notes = []; eligible = [] }) ladder ≡ ok f
      → best_eligible f.eligible ≡ o
      → Verdict b p ladder o
  best_eligible-Verdict b p ladder f none h e = λ c n o k l.
      let found = found-examine b p _ f ladder c n h o k l in
      subst (Occurs n) (best_eligible-none b p f.eligible e) found
  best_eligible-Verdict b p ladder f (some m) h e =
      let (o, least) = best_eligible-some b p f.eligible e in
      let found : IsFound b p ladder m = elim (examine-IsFound b p _ f ladder m h o) [
        | inl z ↦ elim z [ ]
        | inr r ↦ r
      ] in
      record {
        listed = found.0;
        measured = found.1;
        eligible = found.2;
        least = λ c n i k l.
            All-Occurs (λ x. lex governed_key x m ≡ false) n f.eligible least
              (found-examine b p _ f ladder c n h i k l);
      }

  -- With a baseline and a policy, a successful run of the selector either names a candidate or
  -- abstains. A named candidate stands in the ladder, its measurement against the baseline is
  -- eligible, and no eligible one of the ladder ranks before it; an abstention means that no candidate of the ladder is eligible.
  pub select_with_baseline-Verdict :
      (b : BaselineSelectionInput) (p : SelectionPolicy) (ladder : List CandidateSelectionInput)
      (native : ArtifactId) {s : DualSelection}
      → select_with_baseline ladder_digest baseline_digest policy_digest ladder native b p ≡ ok s
      → ((s.agentloopgate_decision ≡ some select)
          × ((m : Measured) × (s.agentloopgate_candidate_id ≡ some m.item.candidate_id)
              × IsBest b p ladder m))
        ⊎ ((s.agentloopgate_decision ≡ some hold)
            × (s.agentloopgate_candidate_id ≡ none)
            × ((c : CandidateSelectionInput) (n : Measured)
                → Occurs c ladder
                → measure b c ≡ ok n
                → ¬ IsEligible b p n))
  unfolding select_with_baseline
  select_with_baseline-Verdict b p ladder native h =
      let (safe, h1) =
        raise_if-eq-ok (not b.evaluation_complete || not (b.critical_violations == 0)) _ _ h in
      let (f, e, h2) = >>=-eq-ok (examine b p (record { notes = []; eligible = [] }) ladder) _ h1 in
      verdict f (best_eligible f.eligible) (best_eligible-Verdict b p ladder f _ e refl)
        (ok-injective h2)
    where
      verdict :
          (f : Findings) (o : Option Measured) {s : DualSelection}
          → Verdict b p ladder o
          → governed_result ladder_digest baseline_digest policy_digest ladder native b p f.notes o
            ≡ s
          → ((s.agentloopgate_decision ≡ some select)
              × ((m : Measured) × (s.agentloopgate_candidate_id ≡ some m.item.candidate_id)
                  × IsBest b p ladder m))
            ⊎ ((s.agentloopgate_decision ≡ some hold)
                × (s.agentloopgate_candidate_id ≡ none)
                × ((c : CandidateSelectionInput) (n : Measured)
                    → Occurs c ladder
                    → measure b c ≡ ok n
                    → ¬ IsEligible b p n))
      verdict f none v e = inr (
        ap (λ (x : DualSelection). x.agentloopgate_decision) (sym e),
        ap (λ (x : DualSelection). x.agentloopgate_candidate_id) (sym e),
        v,
      )
      verdict f (some m) v e = inl (
        ap (λ (x : DualSelection). x.agentloopgate_decision) (sym e),
        (m, ap (λ (x : DualSelection). x.agentloopgate_candidate_id) (sym e), v),
      )

  governed_result-checked :
      (ladder : List CandidateSelectionInput) (native : ArtifactId) (b : BaselineSelectionInput)
      (p : SelectionPolicy) (notes : List (ArtifactId × List NonEmpty)) (o : Option Measured)
      → check_selection
          (governed_result ladder_digest baseline_digest policy_digest ladder native b p notes o)
        ≡ ok tt
  unfolding check_selection
  governed_result-checked ladder native b p notes none = refl
  governed_result-checked ladder native b p notes (some m) = refl

  with_baseline-checked :
      (ladder : List CandidateSelectionInput) (native : ArtifactId)
      (baseline : Option BaselineSelectionInput) (policy : Option SelectionPolicy)
      {s : DualSelection}
      → with_baseline ladder_digest baseline_digest policy_digest ladder native baseline policy
        ≡ ok s
      → check_selection s ≡ ok tt
  unfolding select_with_baseline select_legacy
  with_baseline-checked ladder native (some b) (some p) h =
      let (safe, h1) =
        raise_if-eq-ok (not b.evaluation_complete || not (b.critical_violations == 0)) _ _ h in
      let (f, e, h2) = >>=-eq-ok (examine b p (record { notes = []; eligible = [] }) ladder) _ h1 in
      subst (λ s. check_selection s ≡ ok tt) (ok-injective h2)
        (governed_result-checked ladder native b p f.notes (best_eligible f.eligible))
  with_baseline-checked ladder native none none h =
      let (w, e, k) = >>=-eq-ok (legacy_winner (filter is_governed ladder)) _ h in
      subst (λ s. check_selection s ≡ ok tt) (ok-injective k) (unfold check_selection in refl)
  with_baseline-checked ladder native (some b) none h = cc
  with_baseline-checked ladder native none (some p) h = cc

  -- Whatever the selector returns, legacy or governed, passes the validator of its result.
  pub check_selection-select_candidates :
      (ladder : List CandidateSelectionInput) (baseline : Option BaselineSelectionInput)
      (policy : Option SelectionPolicy) {s : DualSelection}
      → select_candidates ladder_digest baseline_digest policy_digest ladder baseline policy ≡ ok s
      → check_selection s ≡ ok tt
  unfolding select_candidates
  check_selection-select_candidates [] baseline policy h = cc
  check_selection-select_candidates (c ∷ cs) baseline policy h =
      let (unique, h1) = raise_if-eq-ok (not (is_unique (ids (c ∷ cs)))) _ _ h in
      let (w, e, h2) = >>=-eq-ok (native_winner c cs) _ h1 in
      with_baseline-checked (c ∷ cs) w.candidate_id baseline policy h2
