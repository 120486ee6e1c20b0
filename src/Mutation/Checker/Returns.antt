-- ===== src/Mutation/Checker/Returns.antt =====
-- How `check` returns a verdict, on each guard.
use agent_loop_gate.Base.{
  String, Bool, true, false, Option, none, some, List, [], ◌∷◌, Result, ok, err, raise_if, ◌>>◌,
  ◌>>=◌, ◌≡◌, refl, sym, ap, ◌∙◌,
}
use agent_loop_gate.Schemas.{risk_tier_eq}
use agent_loop_gate.Mutation.Models.{HarnessAsset, MutationPolicy, pass, reject}
use agent_loop_gate.Mutation.Patch.{MutationError, ParsedPatch}
use agent_loop_gate.Mutation.Checker.Verdicts.{
  Verdict, returned, CapabilityError, by_risk, none_protected, none_unbound, parsed_or, one_asset,
}

-- The guard that rejects does not apply to a patch that passes.
pub passes-raise_if :
    (c : Bool) (v : Verdict) (m : Result Verdict Verdict)
    → v.disposition ≡ reject
    → (returned (raise_if c v >> m)).disposition ≡ pass
    → (c ≡ false) × ((returned m).disposition ≡ pass)
passes-raise_if true v m h k = cc (h, k)
passes-raise_if false v m h k = (refl, k)

pub passes->>= :
    {A : Type 0} (m : Result Verdict A) (f : A → Result Verdict Verdict)
    → ((v : Verdict) → m ≡ err v → v.disposition ≡ reject)
    → (returned (m >>= f)).disposition ≡ pass
    → (a : A) × (m ≡ ok a) × ((returned (f a)).disposition ≡ pass)
passes->>= (ok a) f h k = (a, refl, k)
passes->>= (err v) f h k = cc (h v refl, k)

err-injective : {A : Type 0} {v w : Verdict} → ◌≡◌ {A = Result Verdict A} (err w) (err v) → w ≡ v
err-injective h = cc

rejected :
    {A : Type 0} {v w : Verdict}
    → ◌≡◌ {A = Result Verdict A} (err w) (err v)
    → w.disposition ≡ reject
    → v.disposition ≡ reject
rejected h k = sym (ap (λ (x : Verdict). x.disposition) (err-injective h)) ∙ k

pub rejects->>= :
    {A B : Type 0} (m : Result Verdict A) (f : A → Result Verdict B) (v : Verdict)
    → ((w : Verdict) → m ≡ err w → w.disposition ≡ reject)
    → ((a : A) (w : Verdict) → f a ≡ err w → w.disposition ≡ reject)
    → (m >>= f) ≡ err v
    → v.disposition ≡ reject
rejects->>= (ok a) f v h k l = k a v l
rejects->>= (err w) f v h k l = rejected l (h w refl)

pub parsed_or-rejects :
    (m : Result MutationError ParsedPatch) (v : Verdict)
    → parsed_or m ≡ err v
    → v.disposition ≡ reject
parsed_or-rejects (ok p) v h = cc
parsed_or-rejects (err e) v h = rejected h refl

pub parsed_or-eq-ok :
    (m : Result MutationError ParsedPatch) {p : ParsedPatch} → parsed_or m ≡ ok p → m ≡ ok p
parsed_or-eq-ok (ok p) h = cc
parsed_or-eq-ok (err e) h = cc

pub none_protected-rejects :
    (p : ParsedPatch) (files : List String) (v : Verdict)
    → none_protected p files ≡ err v
    → v.disposition ≡ reject
none_protected-rejects p [] v h = cc
none_protected-rejects p (f ∷ fs) v h = rejected h refl

pub none_protected-eq-ok :
    (p : ParsedPatch) (files : List String) {u : Unit {0}}
    → none_protected p files ≡ ok u
    → files ≡ []
none_protected-eq-ok p [] h = refl
none_protected-eq-ok p (f ∷ fs) h = cc

pub none_unbound-rejects :
    (p : ParsedPatch) (assets : List HarnessAsset) (e : Option CapabilityError) (v : Verdict)
    → none_unbound p assets e ≡ err v
    → v.disposition ≡ reject
none_unbound-rejects p assets none v h = cc
none_unbound-rejects p assets (some e) v h = rejected h refl

pub none_unbound-eq-ok :
    (p : ParsedPatch) (assets : List HarnessAsset) (e : Option CapabilityError) {u : Unit {0}}
    → none_unbound p assets e ≡ ok u
    → e ≡ none
none_unbound-eq-ok p assets none h = refl
none_unbound-eq-ok p assets (some e) h = cc

pub one_asset-rejects :
    (f : String) (p : ParsedPatch) (as' : List HarnessAsset) (v : Verdict)
    → one_asset f p as' ≡ err v
    → v.disposition ≡ reject
one_asset-rejects f p [] v h = rejected h refl
one_asset-rejects f p (a ∷ []) v h = cc
one_asset-rejects f p (a ∷ b ∷ rest) v h = rejected h refl

pub one_asset-eq-ok :
    (f : String) (p : ParsedPatch) (as' : List HarnessAsset) {a : HarnessAsset}
    → one_asset f p as' ≡ ok a
    → as' ≡ a ∷ []
one_asset-eq-ok f p [] h = cc
one_asset-eq-ok f p (a ∷ []) h = cc
one_asset-eq-ok f p (a ∷ b ∷ rest) h = cc

pub by_risk-pass :
    (policy : MutationPolicy) (p : ParsedPatch) (assets : List HarnessAsset) (b : Bool)
    → (by_risk policy p assets b).disposition ≡ pass
    → b ≡ false
by_risk-pass policy p assets true h = cc
by_risk-pass policy p assets false h = refl
