-- ===== src/Gates/Selection/Eligible.antt =====
-- What it takes that a candidate has no reason against it.
use agent_loop_gate.Base.{
  ℕ, ◌+◌, ◌≤◌, ◌<◌, String, Bool, true, false, not, some, List, [], ◌∷◌, ◌++◌, same_set, contains,
  Occurs, contains-Occurs, Occurs-is_subset, lookup, lookup-keys, keys, filter, leb, ltb, ◌==◌,
  string_eq, Bool-cases, and_true, ltb-false, ◌≡◌, ◌↔◌, refl, ap, sym, ◌∙◌, ◌⊎◌, inl, inr, arith,
  if◌then◌else◌,
}
use mathlib.Core.List.{append-nil}
use agent_loop_gate.Base.Decimals.{Decimal, is_zero, div, le}
use agent_loop_gate.Base.Sorting.{str_lt, Occurs-sorted}
use agent_loop_gate.Schemas.{ArtifactId}
use agent_loop_gate.Gates.Models.{BaselineSelectionInput, SelectionPolicy}
use agent_loop_gate.Gates.Selection.{
  Measured, within_ratio, is_regression, failed_in, regressed, note_if, regression_note, reasons,
}

-- The value over its baseline is at most the maximum; over a zero baseline, the value is zero.
abbrev pub IsRatioWithin : Decimal → Decimal → Decimal → Type 0
IsRatioWithin value baseline maximum =
    ((is_zero baseline ≡ true) × (is_zero value ≡ true))
    ⊎ ((is_zero baseline ≡ false) × (le (div value baseline) maximum ≡ true))

within_ratio-IsRatioWithin :
    (value baseline maximum : Decimal)
    → (within_ratio value baseline maximum ≡ true) ↔ IsRatioWithin value baseline maximum
unfolding within_ratio
within_ratio-IsRatioWithin value baseline maximum = elim (Bool-cases (is_zero baseline)) [
  | inl p ↦ (λ h. inl (p, rw p at h), λ h. rw p (elim h [ inl k ↦ k.1 | inr k ↦ cc (p, k.0) ]))
  | inr p ↦ (λ h. inr (p, rw p at h), λ h. rw p (elim h [ inl k ↦ cc (p, k.0) | inr k ↦ k.1 ]))
]

-- A candidate that strictly improves on the baseline, loses no task that the baseline solves, and
-- stays within the limits of the policy.
pub record IsEligible (b : BaselineSelectionInput) (p : SelectionPolicy) (m : Measured)
    : Type 0 where
  pub complete : m.item.evaluation_complete ≡ true
  pub safe : m.item.critical_violations ≡ 0
  pub no_regression :
      (task : ArtifactId)
      → Occurs (task, true) b.stable_task_outcomes
      → lookup task m.outcomes ≡ some true
  pub gain : b.stable_success_task_count < m.item.stable_success_task_count
  pub affordable :
      IsRatioWithin m.whole_cost b.whole_attempt_cost_usd p.whole_attempt_cost_ratio_max
  pub quick : IsRatioWithin m.p95 b.p95_latency_ms p.p95_latency_ratio_max
  pub few_retries : m.retries ≤ b.retry_count + p.max_retry_increase
  pub few_timeouts : m.timeouts ≤ b.timeout_count + p.max_timeout_increase

note_if-nil :
    (c : Bool) (s : String) (xs : List String) → note_if c s ++ xs ≡ [] → (c ≡ false) × (xs ≡ [])
note_if-nil true s xs h = cc
note_if-nil false s xs h = (refl, h)

nil-note_if :
    (c : Bool) (s : String) (xs : List String) → c ≡ false → xs ≡ [] → note_if c s ++ xs ≡ []
nil-note_if true s xs h k = cc
nil-note_if false s xs h k = k

regression_note-nil :
    (ts : List ArtifactId) (xs : List String)
    → regression_note ts ++ xs ≡ []
    → (ts ≡ []) × (xs ≡ [])
regression_note-nil [] xs h = (refl, h)
regression_note-nil (t ∷ ts) xs h = cc

nil-regression_note :
    (ts : List ArtifactId) (xs : List String) → ts ≡ [] → xs ≡ [] → regression_note ts ++ xs ≡ []
nil-regression_note [] xs h k = k
nil-regression_note (t ∷ ts) xs h k = cc

nil_of_no_Occurs : (xs : List String) → ((x : String) → Occurs x xs → ⊥) → xs ≡ []
nil_of_no_Occurs [] h = refl
nil_of_no_Occurs (x ∷ xs) h = absurd (h x (inl refl))

Occurs-keys_if :
    (r : Bool) (t task : ArtifactId) (d : List (ArtifactId × Bool))
    → Occurs task (keys (if r then (t, true) ∷ d else d))
      ↔ (((r ≡ true) × (task ≡ t)) ⊎ Occurs task (keys d))
Occurs-keys_if true t task d = (
  λ h. elim h [ inl e ↦ inl (refl, e) | inr o ↦ inr o ],
  λ h. elim h [ inl e ↦ inl e.1 | inr o ↦ inr o ],
)
Occurs-keys_if false t task d = (λ h. inr h, λ h. elim h [ inl e ↦ cc (e.0) | inr o ↦ o ])

-- A task is listed as regressed exactly when the baseline solves it and the candidate fails it.
Occurs-keys-filter :
    (outcomes bs : List (ArtifactId × Bool)) (task : ArtifactId)
    → Occurs task (keys (filter (is_regression outcomes) bs))
      ↔ (Occurs (task, true) bs × (failed_in outcomes task ≡ true))
Occurs-keys-filter outcomes [] task = (λ h. elim h [ ], λ h. elim h.0 [ ])
Occurs-keys-filter outcomes ((t, false) ∷ bs) task =
    let ih = Occurs-keys-filter outcomes bs task in
    (
      λ h. (inr (ih.0 h).0, (ih.0 h).1),
      λ h. elim h.0 [ inl e ↦ absurd (ground arith) | inr o ↦ ih.1 (o, h.1) ],
    )
Occurs-keys-filter outcomes ((t, true) ∷ bs) task =
    let ih = Occurs-keys-filter outcomes bs task in
    let split = Occurs-keys_if (failed_in outcomes t) t task (filter (is_regression outcomes) bs) in
    (
      λ h. elim (split.0 h) [
        | inl e ↦ (inl (ap (λ (x : ArtifactId). (x, true)) e.1), ap (failed_in outcomes) e.1 ∙ e.0)
        | inr o ↦ (inr (ih.0 o).0, (ih.0 o).1)
      ],
      λ h. split.1 (elim h.0 [
        | inl e ↦ inl (
          ap (failed_in outcomes) (sym (ap (λ (x : ArtifactId × Bool). x.0) e)) ∙ h.1,
          ap (λ (x : ArtifactId × Bool). x.0) e,
        )
        | inr o ↦ inr (ih.1 (o, h.1))
      ]),
    )

lookup_not_failed :
    (outcomes : List (ArtifactId × Bool)) (task : ArtifactId)
    → contains task (keys outcomes) ≡ true
    → failed_in outcomes task ≡ false
    → lookup task outcomes ≡ some true
lookup_not_failed outcomes task h k = let (v, e) = lookup-keys task outcomes h in ground arith

Occurs-keys :
    (task : ArtifactId) (s : Bool) (bs : List (ArtifactId × Bool))
    → Occurs (task, s) bs
    → Occurs task (keys bs)
Occurs-keys task s [] h = h
Occurs-keys task s ((t, v) ∷ bs) (inl e) = inl (ap (λ (x : ArtifactId × Bool). x.0) e)
Occurs-keys task s ((t, v) ∷ bs) (inr h) = inr (Occurs-keys task s bs h)

not_true : (c : Bool) → ¬ (c ≡ true) → c ≡ false
not_true true h = absurd (h refl)
not_true false h = refl

not-false : (c : Bool) → not c ≡ false → c ≡ true
not-false true h = refl
not-false false h = sym h

zero_of_test : (n : ℕ) → not (n == 0) ≡ false → n ≡ 0
zero_of_test n h = ground arith

test_of_zero : (n : ℕ) → n ≡ 0 → not (n == 0) ≡ false
test_of_zero n h = rw h

lt_of_leb : (x y : ℕ) → leb x y ≡ false → y < x
lt_of_leb x y h = ground arith

leb_of_lt : (x y : ℕ) → y < x → leb x y ≡ false
leb_of_lt x y h = ground arith

not_ltb : (x y : ℕ) → y ≤ x → ltb x y ≡ false
not_ltb x y h = ground arith

nil_has_none : (x : String) {xs : List String} → xs ≡ [] → Occurs x xs → ⊥
nil_has_none x {xs = []} e o = o
nil_has_none x {xs = y ∷ ys} e o = cc

-- No regressed task means that every task that the baseline solves is solved.
regressed-nil :
    (b : BaselineSelectionInput) (m : Measured)
    → same_set (keys m.outcomes) (keys b.stable_task_outcomes) ≡ true
    → (regressed b m ≡ []) ↔ (
        (task : ArtifactId)
        → Occurs (task, true) b.stable_task_outcomes
        → lookup task m.outcomes ≡ some true)
unfolding regressed
regressed-nil b m pop = (
  λ h task o.
      let listed = contains-Occurs task (keys m.outcomes) (
        Occurs-is_subset task (keys b.stable_task_outcomes) (keys m.outcomes) (and_true _ _ pop).1
          (Occurs-keys task true b.stable_task_outcomes o)) in
      lookup_not_failed m.outcomes task listed (
        not_true _ λ f. nil_has_none task h (
          (Occurs-sorted str_lt task _).1
            ((Occurs-keys-filter m.outcomes b.stable_task_outcomes task).1 (o, f)))),
  λ h. nil_of_no_Occurs _ λ task o.
      let (solved, f) =
        (Occurs-keys-filter m.outcomes b.stable_task_outcomes task).0
          ((Occurs-sorted str_lt task _).0 o) in
      let e = h task solved in absurd (ground arith),
)

-- The eight notes are all absent exactly when no test fires.
module _ (c s g w q n t : Bool) (ts : List ArtifactId) (s1 s2 s3 s4 s5 s6 s7 : String) where
  abbrev all_notes : List String
  all_notes =
      note_if c s1
      ++ (note_if s s2
          ++ (regression_note ts
              ++ (note_if g s3
                  ++ (note_if w s4 ++ (note_if q s5 ++ (note_if n s6 ++ note_if t s7))))))

  abbrev NoTest : Type 0
  NoTest =
      (c ≡ false)
      × (s ≡ false)
      × (ts ≡ [])
      × (g ≡ false)
      × (w ≡ false)
      × (q ≡ false)
      × (n ≡ false)
      × (t ≡ false)

  all_notes-nil : all_notes ≡ [] → NoTest
  all_notes-nil h =
      let (a, h1) = note_if-nil c s1 _ h in
      let (b, h2) = note_if-nil s s2 _ h1 in
      let (d, h3) = regression_note-nil ts _ h2 in
      let (e, h4) = note_if-nil g s3 _ h3 in
      let (f, h5) = note_if-nil w s4 _ h4 in
      let (i, h6) = note_if-nil q s5 _ h5 in
      let (j, h7) = note_if-nil n s6 _ h6 in
      let (k, h8) = note_if-nil t s7 [] (append-nil (note_if t s7) ∙ h7) in (a, b, d, e, f, i, j, k)

  nil-all_notes : NoTest → all_notes ≡ []
  nil-all_notes (a, b, d, e, f, i, j, k) = nil-note_if c s1 _ a (
      nil-note_if s s2 _ b (
        nil-regression_note ts _ d (
          nil-note_if g s3 _ e (
            nil-note_if w s4 _ f
              (nil-note_if q s5 _ i (nil-note_if n s6 _ j (ap (λ x. note_if x s7) k)))))))

module _ (b : BaselineSelectionInput) (p : SelectionPolicy) (m : Measured)
    (pop : same_set (keys m.outcomes) (keys b.stable_task_outcomes) ≡ true) where
  -- Over the baseline's tasks, a measured candidate against which there is no reason is eligible.
  pub reasons-IsEligible : reasons b p m ≡ [] → IsEligible b p m
  unfolding reasons
  reasons-IsEligible h =
      let (c, s, r, g, w, q, n, t) = all_notes-nil _ _ _ _ _ _ _ (regressed b m) _ _ _ _ _ _ _ h in
      record {
        complete = not-false _ c;
        safe = zero_of_test _ s;
        no_regression = (regressed-nil b m pop).0 r;
        gain = lt_of_leb _ _ g;
        affordable =
            (within_ratio-IsRatioWithin m.whole_cost b.whole_attempt_cost_usd
                p.whole_attempt_cost_ratio_max).0
              (not-false _ w);
        quick =
            (within_ratio-IsRatioWithin m.p95 b.p95_latency_ms p.p95_latency_ratio_max).0
              (not-false _ q);
        few_retries = ltb-false _ _ n;
        few_timeouts = ltb-false _ _ t;
      }

  -- Over the baseline's tasks, there is no reason against an eligible measured candidate.
  pub IsEligible-reasons : IsEligible b p m → reasons b p m ≡ []
  unfolding reasons
  IsEligible-reasons e = nil-all_notes _ _ _ _ _ _ _ (regressed b m) _ _ _ _ _ _ _ (
    ap not e.complete,
    test_of_zero _ e.safe,
    (regressed-nil b m pop).1 e.no_regression,
    leb_of_lt _ _ e.gain,
    ap not (
        (within_ratio-IsRatioWithin m.whole_cost b.whole_attempt_cost_usd
            p.whole_attempt_cost_ratio_max).1
          e.affordable),
    ap not ((within_ratio-IsRatioWithin m.p95 b.p95_latency_ms p.p95_latency_ratio_max).1 e.quick),
    not_ltb _ _ e.few_retries,
    not_ltb _ _ e.few_timeouts,
  )
