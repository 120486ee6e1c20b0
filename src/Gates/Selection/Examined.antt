-- ===== src/Gates/Selection/Examined.antt =====
-- The candidates that the governed selector examines, and the best of the eligible ones.
use agent_loop_gate.Base.{
  ℕ, Bool, true, false, not, Option, none, some, List, [], ◌∷◌, ok, >>=-eq-ok, raise_if-eq-ok,
  ok-injective, same_set, Occurs, All, Occurs-append, keys, ltb, string_eq, ◌≡◌, refl, ap, sym, ◌∙◌,
  ◌⊎◌, inl, inr, arith,
}
use agent_loop_gate.Base.Sorting.{
  lex, lex-IsWeakOrder, IsWeakOrder, min_by-Occurs, min_by_least, str_lt, str_lt-IsWeakOrder,
  ltb-IsWeakOrder, on-IsWeakOrder, flip-IsWeakOrder,
}
use agent_loop_gate.Base.Decimals
use mathlib.Core.Path.{subst}
use mathlib.Core.Option.{some-injective}
use agent_loop_gate.Schemas.{ArtifactId, NonEmpty}
use agent_loop_gate.Gates.Models.{CandidateSelectionInput, BaselineSelectionInput, SelectionPolicy}
use agent_loop_gate.Gates.Selection.{
  Measured, Findings, measure, measure_outcomes, measures, reasons, record_reasons, examine,
  governed_key, best_eligible,
}
use agent_loop_gate.Gates.Selection.Eligible.{IsEligible, reasons-IsEligible, IsEligible-reasons}

governed_key-IsWeakOrder : IsWeakOrder (lex governed_key)
governed_key-IsWeakOrder = lex-IsWeakOrder governed_key (
  flip-IsWeakOrder _
      (on-IsWeakOrder (λ (m : Measured). m.item.stable_success_task_count) ltb ltb-IsWeakOrder),
  (
    on-IsWeakOrder (λ (m : Measured). m.timeouts) ltb ltb-IsWeakOrder,
    (
      on-IsWeakOrder (λ (m : Measured). m.retries) ltb ltb-IsWeakOrder,
      (
        on-IsWeakOrder (λ (m : Measured). m.p95) Decimals.lt Decimals.lt-IsWeakOrder,
        (
          on-IsWeakOrder (λ (m : Measured). m.max_latency) Decimals.lt Decimals.lt-IsWeakOrder,
          (
            on-IsWeakOrder (λ (m : Measured). m.whole_cost) Decimals.lt Decimals.lt-IsWeakOrder,
            (
              on-IsWeakOrder (λ (m : Measured). m.item.mean_cost) Decimals.lt
                  Decimals.lt-IsWeakOrder,
              (
                on-IsWeakOrder (λ (m : Measured). m.item.p50_latency_ms) Decimals.lt
                    Decimals.lt-IsWeakOrder,
                (
                  on-IsWeakOrder (λ (m : Measured). m.item.candidate_id) str_lt str_lt-IsWeakOrder,
                  tt,
                ),
              ),
            ),
          ),
        ),
      ),
    ),
  ),
)

measures-item :
    (c : CandidateSelectionInput) (outs : List (ArtifactId × Bool)) (w : Option Decimals.Decimal)
    (r t : Option ℕ) (p x : Option Decimals.Decimal) {m : Measured}
    → measures c outs w r t p x ≡ ok m
    → (m.item ≡ c) × (m.outcomes ≡ outs)
measures-item c outs w r t p x h = ground arith

not-not-false : (c : Bool) → not c ≡ false → c ≡ true
not-not-false true h = refl
not-not-false false h = sym h

module _ (b : BaselineSelectionInput) (p : SelectionPolicy) where
  -- A candidate is measured over the baseline's tasks.
  measure_outcomes_lem :
      (c : CandidateSelectionInput) (o : Option (List (ArtifactId × Bool))) {m : Measured}
      → measure_outcomes b c o ≡ ok m
      → (m.item ≡ c) × (same_set (keys m.outcomes) (keys b.stable_task_outcomes) ≡ true)
  measure_outcomes_lem c none h = cc
  measure_outcomes_lem c (some outs) h =
      let (t, k) =
        raise_if-eq-ok (not (same_set (keys outs) (keys b.stable_task_outcomes))) _ _ h in
      let (e, f) = measures-item c outs _ _ _ _ _ k in
      (e, ap (λ o. same_set (keys o) (keys b.stable_task_outcomes)) f ∙ not-not-false _ t)

  measure_lem :
      (c : CandidateSelectionInput) {m : Measured}
      → measure b c ≡ ok m
      → (m.item ≡ c) × (same_set (keys m.outcomes) (keys b.stable_task_outcomes) ≡ true)
  unfolding measure
  measure_lem c h = measure_outcomes_lem c c.stable_task_outcomes h

  -- What is known of a candidate that the loop finds eligible.
  abbrev pub IsFound : List CandidateSelectionInput → Measured → Type 0
  IsFound cs m = Occurs m.item cs × (measure b m.item ≡ ok m) × IsEligible b p m

  record_reasons-Occurs :
      (f : Findings) (m n : Measured) (rs : List NonEmpty)
      → Occurs n (record_reasons f m rs).eligible
      → Occurs n f.eligible ⊎ ((n ≡ m) × (rs ≡ []))
  record_reasons-Occurs f m n [] h = elim ((Occurs-append n f.eligible (m ∷ [])).0 h) [
    | inl o ↦ inl o
    | inr o ↦ elim o [ inl e ↦ inr (e, refl) | inr z ↦ elim z [ ] ]
  ]
  record_reasons-Occurs f m n (r ∷ rs) h = inl h

  Occurs-record_reasons :
      (f : Findings) (m n : Measured) (rs : List NonEmpty)
      → Occurs n f.eligible ⊎ ((n ≡ m) × (rs ≡ []))
      → Occurs n (record_reasons f m rs).eligible
  Occurs-record_reasons f m n [] h =
      (Occurs-append n f.eligible (m ∷ [])).1 (elim h [ inl o ↦ inl o | inr e ↦ inr (inl e.0) ])
  Occurs-record_reasons f m n (r ∷ rs) h = elim h [ inl o ↦ o | inr e ↦ cc (e.1) ]

  -- Every eligible measurement comes from the ladder.
  pub examine-IsFound :
      (f g : Findings) (cs : List CandidateSelectionInput) (n : Measured)
      → examine b p f cs ≡ ok g
      → Occurs n g.eligible
      → Occurs n f.eligible ⊎ IsFound cs n
  unfolding examine
  examine-IsFound f g [] n h o = inl (rw (ok-injective h) o)
  examine-IsFound f g (c ∷ cs) n h o =
      let (m, e, rest) = >>=-eq-ok (measure b c) _ h in
      let (same_item, pop) = measure_lem c e in
      elim (examine-IsFound (record_reasons f m (reasons b p m)) g cs n rest o) [
        | inl q ↦ elim (record_reasons-Occurs f m n (reasons b p m) q) [
          | inl r ↦ inl r
          | inr r ↦ inr (
            inl (ap (λ (x : Measured). x.item) r.0 ∙ same_item),
            ap (λ (x : Measured). measure b x.item) r.0
                ∙ ap (measure b) same_item
                ∙ e
                ∙ ap (λ (x : Measured). ok x) (sym r.0),
            subst (IsEligible b p) (sym r.0) (reasons-IsEligible b p m pop r.1),
          )
        ]
        | inr q ↦ inr (inr q.0, q.1, q.2)
      ]

  examine-keeps :
      (f g : Findings) (cs : List CandidateSelectionInput) (n : Measured)
      → examine b p f cs ≡ ok g
      → Occurs n f.eligible
      → Occurs n g.eligible
  unfolding examine
  examine-keeps f g [] n h o = rw (← ok-injective h) o
  examine-keeps f g (c ∷ cs) n h o =
      let (m, e, rest) = >>=-eq-ok (measure b c) _ h in
      examine-keeps (record_reasons f m (reasons b p m)) g cs n rest
        (Occurs-record_reasons f m n (reasons b p m) (inl o))

  -- Every eligible candidate of the ladder is found.
  pub found-examine :
      (f g : Findings) (cs : List CandidateSelectionInput) (c : CandidateSelectionInput)
      (n : Measured)
      → examine b p f cs ≡ ok g
      → Occurs c cs
      → measure b c ≡ ok n
      → IsEligible b p n
      → Occurs n g.eligible
  unfolding examine
  found-examine f g [] c n h o k l = elim o [ ]
  found-examine f g (x ∷ cs) c n h (inl s) k l =
      let (m, e, rest) = >>=-eq-ok (measure b x) _ h in
      let (same_item, pop) = measure_lem c k in
      let same_measure : n ≡ m = ok-injective (sym k ∙ ap (measure b) s ∙ e) in
      examine-keeps (record_reasons f m (reasons b p m)) g cs n rest (
        Occurs-record_reasons f m n (reasons b p m) (
          inr (same_measure, ap (reasons b p) (sym same_measure) ∙ IsEligible-reasons b p n pop l)))
  found-examine f g (x ∷ cs) c n h (inr o) k l =
      let (m, e, rest) = >>=-eq-ok (measure b x) _ h in
      found-examine (record_reasons f m (reasons b p m)) g cs c n rest o k l

  pub best_eligible-some :
      (ms : List Measured) {m : Measured}
      → best_eligible ms ≡ some m
      → Occurs m ms × All (λ n. lex governed_key n m ≡ false) ms
  best_eligible-some [] h = cc
  best_eligible-some (x ∷ ms) h =
      let e = some-injective _ _ h in
      (
        subst (λ w. Occurs w (x ∷ ms)) e (min_by-Occurs (lex governed_key) x ms),
        subst (λ w. All (λ n. lex governed_key n w ≡ false) (x ∷ ms)) e
            (min_by_least (lex governed_key) governed_key-IsWeakOrder x ms),
      )

  pub best_eligible-none : (ms : List Measured) → best_eligible ms ≡ none → ms ≡ []
  best_eligible-none [] h = refl
  best_eligible-none (x ∷ ms) h = cc
