-- ===== src/Gates/Engine/Promotion.antt =====
-- When `GateEngine.decide` recommends, rejects or holds a candidate.
use agent_loop_gate.Base.{
  ◌≤◌, ◌<◌, String, true, false, Option, none, some, List, [], ◌∷◌, map, ok, >>=-eq-ok,
  ok-injective, All, Bool-cases, lookup, lookup-keys, is_subset, Occurs, same_iff, keys, ◌≡◌, ◌≢◌,
  ◌↔◌, refl, ap, ◌∙◌, sym, ◌⊎◌, inl, inr, arith, and_true,
}
use agent_loop_gate.Base.Int.{◌≤ℤ◌}
use agent_loop_gate.Base.Decimals.{Decimal, le, div, whole, is_zero}
use agent_loop_gate.Schemas.{
  GateName, leakage, critical_violation, id_effect, ood_noninferiority, replay, reliability, cost,
  latency, gate_name_eq, DecisionValue, ship_recommended, reject, risk_h, risk_tier_eq, Digest,
  UtcDateTime, NonEmpty,
}
use agent_loop_gate.Schemas.Contract.{ObjectiveContract, all_gates, same_list, check_contract}
use agent_loop_gate.Gates.Models.{GateAssessment, GateOutcome, check_assessment}
use agent_loop_gate.Gates.Engine.{
  Progress, start, evaluate, ratio, within, decision_of, outcome, run_gates, decide,
}
use agent_loop_gate.Gates.Engine.Ladder.{
  IsLadder, first_failure, gate_name, run_gates-IsLadder, names-run_gates, failed-run_gates,
  run_gates_total,
}

-- The measured value over its baseline is within the limit; over a zero baseline, the value is zero
-- and the limit allows at least one.
abbrev pub IsWithin : Decimal → Decimal → Decimal → Type 0
IsWithin value baseline limit =
    ((is_zero baseline ≡ true) × (is_zero value ≡ true) × (le (whole 1) limit ≡ true))
    ⊎ ((is_zero baseline ≡ false) × (le (div value baseline) limit ≡ true))

-- Every frozen requirement of the contract, one by one.
pub record IsPromotable (c : ObjectiveContract) (a : GateAssessment) : Type 0 where
  pub integrity : a.evaluation_integrity_complete ≡ true
  pub trusted : a.mutates_trust_kernel ≡ false
  pub unleaked : a.leakage_hits ≤ c.gates.leakage_hits_max
  pub low_risk : a.risk_tier ≢ risk_h
  pub safe : a.release_critical_violations ≤ c.gates.critical_violations_max
  pub id_gain : c.gates.id_stable_task_net_min ≤ℤ a.id_stable_task_net
  pub ood_gain : c.gates.ood_stable_task_net_min ≤ℤ a.ood_stable_task_net
  pub replay_gain : c.gates.replay_stable_task_net_min ≤ℤ a.replay_stable_task_net
  pub no_catastrophe : a.catastrophic_regressions ≤ c.gates.catastrophic_regressions_max
  pub reliable : a.reliability_complete ≡ true
  pub trials : a.reliability_trials ≡ c.reliability.trials
  pub stable : a.stable_success_required ≡ c.reliability.stable_success_required
  pub affordable : IsWithin a.candidate_mean_cost a.baseline_mean_cost c.gates.mean_cost_ratio_max
  pub quick :
      IsWithin a.candidate_p50_latency_ms a.baseline_p50_latency_ms c.gates.p50_latency_ratio_max

within-IsWithin :
    (value baseline limit : Decimal)
    → (within (ratio value baseline) limit ≡ true) ↔ IsWithin value baseline limit
unfolding ratio
within-IsWithin value baseline limit = elim (Bool-cases (is_zero baseline)) [
  | inl p ↦ elim (Bool-cases (is_zero value)) [
    | inl q ↦ (
      λ h. inl (p, q, rw (p, q) at h),
      λ h. rw (p, q) (elim h [ inl k ↦ k.2 | inr k ↦ cc (p, k.0) ]),
    )
    | inr q ↦ (λ h. cc (rw (p, q) at h), λ h. elim h [ inl k ↦ cc (q, k.1) | inr k ↦ cc (p, k.0) ])
  ]
  | inr p ↦ (λ h. inr (p, rw p at h), λ h. rw p (elim h [ inl k ↦ cc (p, k.0) | inr k ↦ k.1 ]))
]

same_list-eq : (xs ys : List GateName) → same_list xs ys ≡ true → xs ≡ ys
same_list-eq [] [] h = refl
same_list-eq [] (y ∷ ys) h = cc
same_list-eq (x ∷ xs) [] h = cc
same_list-eq (x ∷ xs) (y ∷ ys) h = ground (arith, same_iff x y, same_list-eq xs ys)

-- A validated contract judges the nine gates in the frozen order.
pub decision_order-check_contract :
    (c : ObjectiveContract) → check_contract c ≡ ok tt → c.decision_order ≡ all_gates
unfolding check_contract
decision_order-check_contract c h = same_list-eq c.decision_order all_gates (ground arith)

module _ (c : ObjectiveContract) (a : GateAssessment) where
  abbrev Passes : GateName → Type 0
  Passes g = (evaluate c g a).0 ≡ true

  first_failure-none : (gs : List GateName) → first_failure c a gs ≡ none → All Passes gs
  first_failure-none [] h = tt
  first_failure-none (g ∷ gs) h = elim (Bool-cases (evaluate c g a).0) [
    | inl p ↦ (p, first_failure-none gs (ground arith))
    | inr p ↦ absurd (ground arith)
  ]

  none-first_failure : (gs : List GateName) → All Passes gs → first_failure c a gs ≡ none
  none-first_failure [] h = refl
  none-first_failure (g ∷ gs) h = ground (arith, none-first_failure gs h.1)

  Passes-IsPromotable : All Passes all_gates → IsPromotable c a
  unfolding evaluate
  Passes-IsPromotable (p, (leak, (crit, (gain, (ood, (rep, (rel, (price, (speed, _))))))))) =
      record {
        integrity = p;
        trusted = ground arith;
        unleaked = ground arith;
        low_risk = ground (arith, same_iff a.risk_tier risk_h);
        safe = ground arith;
        id_gain = ground arith;
        ood_gain = ground arith;
        replay_gain = ground arith;
        no_catastrophe = ground arith;
        reliable = ground arith;
        trials = ground arith;
        stable = ground arith;
        affordable = (within-IsWithin a.candidate_mean_cost a.baseline_mean_cost _).0 price;
        quick = (within-IsWithin a.candidate_p50_latency_ms a.baseline_p50_latency_ms _).0 speed;
      }

  IsPromotable-Passes : IsPromotable c a → All Passes all_gates
  unfolding evaluate
  IsPromotable-Passes h =
      let fast =
        (within-IsWithin a.candidate_p50_latency_ms a.baseline_p50_latency_ms _).1 h.quick in
      let cheap = (within-IsWithin a.candidate_mean_cost a.baseline_mean_cost _).1 h.affordable in
      (
        h.integrity,
        (
          ground arith,
          (
            ground (arith, same_iff a.risk_tier risk_h),
            (ground arith, (ground arith, (ground arith, (ground arith, (cheap, (fast, tt)))))),
          ),
        ),
      )

  first_failure-Occurs :
      (f : GateName) (gs : List GateName) → first_failure c a gs ≡ some f → Occurs f gs
  first_failure-Occurs f [] h = cc
  first_failure-Occurs f (g ∷ gs) h = elim (Bool-cases (evaluate c g a).0) [
    | inl p ↦ inr (first_failure-Occurs f gs (ground arith))
    | inr p ↦ inl (ground arith)
  ]

  later_gates : List GateName
  later_gates =
      critical_violation ∷ id_effect ∷ ood_noninferiority ∷ replay ∷ reliability ∷ cost ∷ latency
      ∷ []

  first_failure-ne-leakage : first_failure c a later_gates ≢ some leakage
  unfolding later_gates
  first_failure-ne-leakage h = ground (arith, first_failure-Occurs leakage later_gates h)

  -- Leakage is the first failure exactly when the integrity gate passes and the leakage gate not.
  first_failure-leakage : (first_failure c a all_gates ≡ some leakage) ↔ (
      (a.evaluation_integrity_complete ≡ true)
      × ((a.mutates_trust_kernel ≡ true) ⊎ (c.gates.leakage_hits_max < a.leakage_hits)))
  unfolding evaluate later_gates
  first_failure-leakage = (λ h. ground (arith, first_failure-ne-leakage), λ h. ground arith)

ships-decision_of : (f : Option GateName) → (decision_of f ≡ ship_recommended) ↔ (f ≡ none)
ships-decision_of none = (λ h. refl, λ h. refl)
ships-decision_of (some g) = (λ h. ground arith, λ h. cc)

rejects-decision_of : (f : Option GateName) → (decision_of f ≡ reject) ↔ (f ≡ some leakage)
rejects-decision_of none = (λ h. cc, λ h. cc)
rejects-decision_of (some g) =
    (λ h. ground (arith, same_iff g leakage), λ h. ground (arith, same_iff g leakage))

refs-found :
    (a : GateAssessment) (gs : List GateName)
    → is_subset gs (keys a.evidence_refs) ≡ true
    → All (λ g. (r : NonEmpty) × (lookup g a.evidence_refs ≡ some r)) gs
refs-found a [] h = tt
refs-found a (g ∷ gs) h =
    (lookup-keys g a.evidence_refs (and_true _ _ h).0, refs-found a gs (and_true _ _ h).1)

module _ (identity : Option Digest → GateAssessment → DecisionValue → String) where
  decide-progress :
      (c : ObjectiveContract) (a : GateAssessment) (t : UtcDateTime) {o : GateOutcome}
      → decide identity c a t ≡ ok o
      → (p : Progress) × (run_gates c a start c.decision_order ≡ ok p)
        × (outcome identity c a t p ≡ o)
  unfolding decide
  decide-progress c a t h =
      let (p, r, e) = >>=-eq-ok (run_gates c a start c.decision_order) _ h in (p, r, ok-injective e)

  -- On any outcome, the results name the gates of the contract's order, one by one. Without a
  -- failed gate all of them pass. With one, the gates before it pass, its own test is false, and
  -- those after it are recorded as not evaluated.
  pub decide-IsLadder :
      (c : ObjectiveContract) (a : GateAssessment) (t : UtcDateTime) {o : GateOutcome}
      → decide identity c a t ≡ ok o
      → (map gate_name o.decision_record.gates ≡ c.decision_order)
        × IsLadder c a o.failed_gate o.decision_record.gates
  decide-IsLadder c a t h =
      let (p, r, e) = decide-progress c a t h in
      rw (← e) (
        names-run_gates c a start p c.decision_order r,
        run_gates-IsLadder c a start p c.decision_order r tt,
      )

  decide-decision :
      (c : ObjectiveContract) (a : GateAssessment) (t : UtcDateTime) {o : GateOutcome}
      → check_contract c ≡ ok tt
      → decide identity c a t ≡ ok o
      → o.decision_record.decision ≡ decision_of (first_failure c a all_gates)
  decide-decision c a t hc h =
      let (p, r, e) = decide-progress c a t h in
      ap (λ (x : GateOutcome). x.decision_record.decision) (sym e)
      ∙ ap decision_of (
          failed-run_gates c a start p c.decision_order r refl
          ∙ ap (first_failure c a) (decision_order-check_contract c hc))

  -- With a validated contract, the decision is to recommend the candidate exactly when every
  -- frozen requirement holds.
  pub decide-ships_iff :
      (c : ObjectiveContract) (a : GateAssessment) (t : UtcDateTime) {o : GateOutcome}
      → check_contract c ≡ ok tt
      → decide identity c a t ≡ ok o
      → (o.decision_record.decision ≡ ship_recommended) ↔ IsPromotable c a
  decide-ships_iff c a t hc h =
      let e = decide-decision c a t hc h in
      let iff = ships-decision_of (first_failure c a all_gates) in
      (
        λ s. Passes-IsPromotable c a (first_failure-none c a all_gates (iff.0 (sym e ∙ s))),
        λ s. e ∙ iff.1 (none-first_failure c a all_gates (IsPromotable-Passes c a s)),
      )

  -- With a validated contract, the decision is to reject exactly when the evaluation is complete
  -- and the candidate changes the trust kernel or leaks more than the limit.
  pub decide-rejects_iff :
      (c : ObjectiveContract) (a : GateAssessment) (t : UtcDateTime) {o : GateOutcome}
      → check_contract c ≡ ok tt
      → decide identity c a t ≡ ok o
      → (o.decision_record.decision ≡ reject) ↔ (
          (a.evaluation_integrity_complete ≡ true)
          × ((a.mutates_trust_kernel ≡ true) ⊎ (c.gates.leakage_hits_max < a.leakage_hits)))
  decide-rejects_iff c a t hc h =
      let e = decide-decision c a t hc h in
      let iff = rejects-decision_of (first_failure c a all_gates) in
      (
        λ s. (first_failure-leakage c a).0 (iff.0 (sym e ∙ s)),
        λ s. e ∙ iff.1 ((first_failure-leakage c a).1 s),
      )

  -- With a validated contract and a validated assessment `decide` returns an outcome.
  pub decide_total :
      (c : ObjectiveContract) (a : GateAssessment) (t : UtcDateTime)
      → check_contract c ≡ ok tt
      → check_assessment a ≡ ok tt
      → (o : GateOutcome) × (decide identity c a t ≡ ok o)
  unfolding decide check_assessment
  decide_total c a t hc ha =
      let found =
        refs-found a c.decision_order (rw (decision_order-check_contract c hc) (ground arith)) in
      let (p, e) = run_gates_total c a start c.decision_order found in
      (outcome identity c a t p, rw e)
