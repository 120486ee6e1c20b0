-- ===== src/Ledger/Calls/Sets.antt =====
-- Sets of call ids, as lists without a repetition.
use agent_loop_gate.Base.{
  suc, ◌+◌, true, false, List, [], ◌∷◌, All, same, contains, is_unique, distinct, is_subset,
  string_eq, ◌≡◌, refl, inl, inr, arith, sym, length, Bool-cases, same_iff, ap, and_true,
}
use mathlib.Core.Path.{subst}
use agent_loop_gate.Schemas.{ArtifactId}
use agent_loop_gate.Ledger.Calls.{difference}

pub is_unique-cons :
    (x : ArtifactId) (xs : List ArtifactId)
    → is_unique (x ∷ xs) ≡ true
    → (contains x xs ≡ false) × (is_unique xs ≡ true)
is_unique-cons x xs h = (ground (arith, h), ground (arith, h))

pub distinct-is_unique : (xs : List ArtifactId) → is_unique xs ≡ true → distinct xs ≡ xs
distinct-is_unique [] h = refl
distinct-is_unique (x ∷ xs) h = elim (Bool-cases (contains x xs)) [
  | inl p ↦ absurd (cc (p, (is_unique-cons x xs h).0))
  | inr p ↦ rw (p, distinct-is_unique xs (is_unique-cons x xs h).1)
]

pub contains-All :
    (P : ArtifactId → Type 0) (a : ArtifactId) (xs : List ArtifactId)
    → All P xs
    → (P a → ⊥)
    → contains a xs ≡ false
contains-All P a [] h nope = refl
contains-All P a (x ∷ xs) h nope = elim (Bool-cases (same a x)) [
  | inl p ↦ absurd (nope (rw ((same_iff a x).0 p) h.0))
  | inr p ↦ rw (p, contains-All P a xs h.1 nope)
]

difference-absent :
    (y : ArtifactId) (ys xs : List ArtifactId)
    → contains y xs ≡ false
    → difference xs (y ∷ ys) ≡ difference xs ys
difference-absent y ys [] n = refl
difference-absent y ys (x ∷ xs) n =
    ground (arith, same_iff x y, same_iff y x, difference-absent y ys xs)

-- An element more to take away takes away one more.
difference-cons :
    (y : ArtifactId) (ys xs : List ArtifactId)
    → is_unique xs ≡ true
    → contains y xs ≡ true
    → contains y ys ≡ false
    → suc (length (difference xs (y ∷ ys))) ≡ length (difference xs ys)
difference-cons y ys [] u h n = cc h
difference-cons y ys (x ∷ xs) u h n = elim (Bool-cases (same x y)) [
  | inl p ↦
      let e : x ≡ y = (same_iff x y).0 p in
      let m : contains x ys ≡ false = subst (λ (z : ArtifactId). contains z ys ≡ false) (sym e) n in
      rw (
        p,
        m,
        difference-absent y ys xs
            (subst (λ (z : ArtifactId). contains z xs ≡ false) e (is_unique-cons x xs u).0),
      )
  | inr p ↦ ground (arith, same_iff y x, same_iff x y, difference-cons y ys xs)
]

difference-nil : (xs : List ArtifactId) → length (difference xs []) ≡ length xs
difference-nil [] = refl
difference-nil (x ∷ xs) = ap suc (difference-nil xs)

pub length-difference :
    (xs ys : List ArtifactId)
    → is_unique xs ≡ true
    → is_unique ys ≡ true
    → is_subset ys xs ≡ true
    → length (difference xs ys) + length ys ≡ length xs
length-difference xs [] u v s = omega (arith, difference-nil xs)
length-difference xs (y ∷ ys) u v s = ground (
  arith,
  difference-cons y ys xs u (and_true (contains y xs) (is_subset ys xs) s).0
      (is_unique-cons y ys v).0,
  length-difference xs ys u (is_unique-cons y ys v).1
      (and_true (contains y xs) (is_subset ys xs) s).1,
)
