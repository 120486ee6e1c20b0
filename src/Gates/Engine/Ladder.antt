-- ===== src/Gates/Engine/Ladder.antt =====
-- The loop of `GateEngine.decide`: the gates before the first failure pass, and those after it
-- are not evaluated.
use mathlib.Core.List.{append_assoc, append-nil, map-append}
use agent_loop_gate.Base.{
  String, Bool, true, false, Option, none, some, List, [], ◌∷◌, ◌++◌, map, ok, ◌>>=◌, >>=-eq-ok,
  ok-injective, All, All-append, lookup, ◌≡◌, refl, ap, ◌∙◌, sym, arith,
}
use agent_loop_gate.Schemas.{GateName, pass, fail, not_evaluated, NonEmpty, gate_name_eq}
use agent_loop_gate.Schemas.Contract.{ObjectiveContract}
use agent_loop_gate.Schemas.Candidate.{GateEvidence}
use agent_loop_gate.Gates.Models.{GateAssessment}
use agent_loop_gate.Gates.Engine.{evaluate, Progress, evidence_ref, run_gates, one_gate, judged}

abbrev pub gate_name : GateEvidence → GateName
gate_name e = e.name

module _ (c : ObjectiveContract) (a : GateAssessment) where
  abbrev pub Passed : GateEvidence → Type 0
  Passed e = (e.status ≡ pass) × ((evaluate c e.name a).0 ≡ true)

  abbrev pub NotEvaluated : GateEvidence → Type 0
  NotEvaluated e = e.status ≡ not_evaluated

  -- What the results say of the gate that failed.
  abbrev pub IsLadder : Option GateName → List GateEvidence → Type 0
  IsLadder none es = All Passed es
  IsLadder (some f) es =
      (before : List GateEvidence) × (r : NonEmpty) × (after : List GateEvidence) × (es
        ≡ before ++ (record { name = f; status = fail; evidence_ref = r }) ∷ after)
      × All Passed before
      × ((evaluate c f a).0 ≡ false)
      × All NotEvaluated after

  -- The first gate of a list that does not pass.
  abbrev pub first_failure : List GateName → Option GateName
  first_failure [] = none
  first_failure (g ∷ gs) = elim (evaluate c g a).0 [ true ↦ first_failure gs | false ↦ some g ]

  judged-IsLadder :
      (p : Progress) (g : GateName) (v : Bool × String) (r : NonEmpty)
      → v ≡ evaluate c g a
      → p.failed_gate ≡ none
      → All Passed p.results
      → IsLadder (judged c a p g v r).failed_gate (judged c a p g v r).results
  judged-IsLadder p g (true, why) r e n h =
      rw n (All-append Passed p.results _ h ((refl, ap (λ (v : Bool × String). v.0) (sym e)), tt))
  judged-IsLadder p g (false, why) r e n h =
      (p.results, r, [], refl, h, ap (λ (v : Bool × String). v.0) (sym e), tt)

  stopped-IsLadder :
      (p : Progress) (g f : GateName) (r : NonEmpty)
      → IsLadder (some f) p.results
      → IsLadder
          (some f)
          (p.results ++ (record { name = g; status = not_evaluated; evidence_ref = r }) ∷ [])
  stopped-IsLadder p g f r (before, s, after, e, passed, failed, skipped) = (
    before,
    s,
    after ++ (record { name = g; status = not_evaluated; evidence_ref = r }) ∷ [],
    rw (e, append_assoc),
    passed,
    failed,
    All-append NotEvaluated after _ skipped (refl, tt),
  )

  one_gate-IsLadder :
      (p : Progress) (g : GateName) (f : Option GateName) (r : NonEmpty)
      → p.failed_gate ≡ f
      → IsLadder f p.results
      → IsLadder (one_gate c a p g f r).failed_gate (one_gate c a p g f r).results
  one_gate-IsLadder p g none r e h = judged-IsLadder p g (evaluate c g a) r refl e h
  one_gate-IsLadder p g (some f) r e h = rw e (stopped-IsLadder p g f r h)

  pub run_gates-IsLadder :
      (p q : Progress) (gs : List GateName)
      → run_gates c a p gs ≡ ok q
      → IsLadder p.failed_gate p.results
      → IsLadder q.failed_gate q.results
  unfolding run_gates
  run_gates-IsLadder p q [] h l = rw (ok-injective h) at l
  run_gates-IsLadder p q (g ∷ gs) h l =
      let (r, e, rest) = >>=-eq-ok (evidence_ref a g) _ h in
      run_gates-IsLadder (one_gate c a p g p.failed_gate r) q gs rest
        (one_gate-IsLadder p g p.failed_gate r refl l)

  names-judged :
      (p : Progress) (g : GateName) (v : Bool × String) (r : NonEmpty)
      → map gate_name (judged c a p g v r).results ≡ map gate_name p.results ++ g ∷ []
  names-judged p g (true, why) r = rw map-append
  names-judged p g (false, why) r = rw map-append

  names-one_gate :
      (p : Progress) (g : GateName) (f : Option GateName) (r : NonEmpty)
      → map gate_name (one_gate c a p g f r).results ≡ map gate_name p.results ++ g ∷ []
  names-one_gate p g none r = names-judged p g (evaluate c g a) r
  names-one_gate p g (some f) r = rw map-append

  pub names-run_gates :
      (p q : Progress) (gs : List GateName)
      → run_gates c a p gs ≡ ok q
      → map gate_name q.results ≡ map gate_name p.results ++ gs
  unfolding run_gates
  names-run_gates p q [] h = rw (append-nil, ok-injective h)
  names-run_gates p q (g ∷ gs) h =
      let (r, e, rest) = >>=-eq-ok (evidence_ref a g) _ h in
      names-run_gates (one_gate c a p g p.failed_gate r) q gs rest
      ∙ rw (names-one_gate p g p.failed_gate r, append_assoc)

  -- The gate that is recorded is the first that does not pass.
  failed-judged :
      (p : Progress) (g : GateName) (gs : List GateName) (v : Bool × String) (r : NonEmpty)
      (q : Progress)
      → p.failed_gate ≡ none
      → ((judged c a p g v r).failed_gate ≡ none → q.failed_gate ≡ first_failure gs)
      → ((f : GateName) → (judged c a p g v r).failed_gate ≡ some f → q.failed_gate ≡ some f)
      → q.failed_gate ≡ (elim v.0 [ true ↦ first_failure gs | false ↦ some g ])
  failed-judged p g gs (true, why) r q n go stay = go n
  failed-judged p g gs (false, why) r q n go stay = stay g refl

  stays :
      (p : Progress) (g f : GateName) (o : Option GateName) (r : NonEmpty)
      → o ≡ some f
      → (one_gate c a p g o r).failed_gate ≡ p.failed_gate
  stays p g f none r e = cc
  stays p g f (some x) r e = refl

  failed-run_gates-some :
      (p q : Progress) (f : GateName) (gs : List GateName)
      → run_gates c a p gs ≡ ok q
      → p.failed_gate ≡ some f
      → q.failed_gate ≡ some f
  unfolding run_gates
  failed-run_gates-some p q f [] h n = ground arith
  failed-run_gates-some p q f (g ∷ gs) h n =
      let (r, e, rest) = >>=-eq-ok (evidence_ref a g) _ h in
      failed-run_gates-some (one_gate c a p g p.failed_gate r) q f gs rest
        (stays p g f p.failed_gate r n ∙ n)

  one_gate-none :
      (p : Progress) (g : GateName) (f : Option GateName) (r : NonEmpty)
      → f ≡ none
      → one_gate c a p g f r ≡ judged c a p g (evaluate c g a) r
  one_gate-none p g none r e = refl
  one_gate-none p g (some f) r e = cc

  pub failed-run_gates :
      (p q : Progress) (gs : List GateName)
      → run_gates c a p gs ≡ ok q
      → p.failed_gate ≡ none
      → q.failed_gate ≡ first_failure gs
  unfolding run_gates
  failed-run_gates p q [] h n = ground arith
  failed-run_gates p q (g ∷ gs) h n =
      let (r, e, rest) = >>=-eq-ok (evidence_ref a g) _ h in
      let next = one_gate c a p g p.failed_gate r in
      let same_step = ap (λ (x : Progress). x.failed_gate) (one_gate-none p g p.failed_gate r n) in
      failed-judged p g gs (evaluate c g a) r q n
        (λ k. failed-run_gates next q gs rest (same_step ∙ k))
        (λ f k. failed-run_gates-some next q f gs rest (same_step ∙ k))

  found-evidence :
      (g : GateName) (r : NonEmpty) → lookup g a.evidence_refs ≡ some r → evidence_ref a g ≡ ok r
  found-evidence g r e = rw (e, evidence_ref)

  -- With a reference for each gate of the list, the loop ends.
  pub run_gates_total :
      (p : Progress) (gs : List GateName)
      → All (λ g. (r : NonEmpty) × (lookup g a.evidence_refs ≡ some r)) gs
      → (q : Progress) × (run_gates c a p gs ≡ ok q)
  unfolding run_gates
  run_gates_total p [] h = (p, refl)
  run_gates_total p (g ∷ gs) ((r, e), h) =
      let (q, k) = run_gates_total (one_gate c a p g p.failed_gate r) gs h in
      (
        q,
        ap (λ m. m >>= λ s. run_gates c a (one_gate c a p g p.failed_gate s) gs)
              (found-evidence g r e)
            ∙ k,
      )
