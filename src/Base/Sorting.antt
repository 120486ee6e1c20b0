-- ===== src/Base/Sorting.antt =====
-- Orders as Boolean tests, Python's `sorted`, and `min` with a key that is a tuple.
use Prim.Native.Char.{code}
use agent_loop_gate.Base.Tests.{ltb, if◌then◌else◌, Bool-cases}
use agent_loop_gate.Base.Lists.{All, Occurs}
use Prim.Native.Nat.{ℕ}
use Prim.Native.String.{String}
use mathlib.Core.Path.{◌≡◌, refl, ◌∙◌}
use mathlib.Core.Logic.{◌↔◌, inl, inr}
use mathlib.Core.Bool.{Bool, true, false}
use mathlib.Core.List.{List, [], ◌∷◌}
use native.Mathlib.Omega.{arith}

-- The test of a strict weak order.
pub record IsWeakOrder {A : Type 0} (lt : A → A → Bool) : Type 0 where
  pub asym : (a b : A) → lt a b ≡ true → lt b a ≡ false
  pub cotrans : (a b c : A) → lt a c ≡ true → lt a b ≡ false → lt b c ≡ true

module _ {A : Type 0} where
  -- `<` of two tuples, given `<` at each place.
  abbrev pub lex : List (A → A → Bool) → A → A → Bool
  lex [] a b = false
  lex (lt ∷ lts) a b = if lt a b then true else if lt b a then false else lex lts a b

  lex-asym :
      (lts : List (A → A → Bool))
      → All IsWeakOrder lts
      → (a b : A) → lex lts a b ≡ true
      → lex lts b a ≡ false
  lex-asym [] h a b p = refl
  lex-asym (lt ∷ lts) h a b p = ground (arith, h.0.asym a b, lex-asym lts h.1 a b)

  lex-cotrans :
      (lts : List (A → A → Bool))
      → All IsWeakOrder lts
      → (a b c : A) → lex lts a c ≡ true
      → lex lts a b ≡ false
      → lex lts b c ≡ true
  lex-cotrans [] h a b c p q = cc
  lex-cotrans (lt ∷ lts) h a b c p q = ground (
    arith,
    h.0.cotrans a b c,
    h.0.cotrans b c a,
    h.0.cotrans c a b,
    h.0.cotrans c b a,
    h.0.cotrans b a c,
    h.0.cotrans a c b,
    h.0.asym a b,
    h.0.asym b c,
    h.0.asym a c,
    lex-cotrans lts h.1 a b c,
  )

  pub lex-IsWeakOrder : (lts : List (A → A → Bool)) → All IsWeakOrder lts → IsWeakOrder (lex lts)
  lex-IsWeakOrder lts h = record { asym = lex-asym lts h; cotrans = lex-cotrans lts h }

-- The order of one place of a tuple.
pub on-IsWeakOrder :
    {A B : Type 0} (f : A → B) (lt : B → B → Bool)
    → IsWeakOrder lt
    → IsWeakOrder (λ (a b : A). lt (f a) (f b))
on-IsWeakOrder f lt h = record {
  asym = λ a b. h.asym (f a) (f b);
  cotrans = λ a b c. h.cotrans (f a) (f b) (f c);
}

pub flip-IsWeakOrder :
    {A : Type 0} (lt : A → A → Bool) → IsWeakOrder lt → IsWeakOrder (λ (a b : A). lt b a)
flip-IsWeakOrder lt h = record {
  asym = λ a b. h.asym b a;
  cotrans =
      λ a b c p q. elim (Bool-cases (lt c b)) [ inl r ↦ r | inr r ↦ cc (q, h.cotrans c b a p r) ];
}

pub ltb-IsWeakOrder : IsWeakOrder ltb
ltb-IsWeakOrder = record { asym = λ a b h. ground arith; cotrans = λ a b c p q. ground arith }

-- The code points of a text.
abbrev codes : String → List ℕ
codes String.[] = []
codes (String.◌∷◌ c s) = code c ∷ codes s

codes_lt : List ℕ → List ℕ → Bool
codes_lt xs [] = false
codes_lt [] (y ∷ ys) = true
codes_lt (x ∷ xs) (y ∷ ys) =
    let rest = codes_lt xs ys in if ltb x y then true else if ltb y x then false else rest

codes_lt-asym : (xs ys : List ℕ) → codes_lt xs ys ≡ true → codes_lt ys xs ≡ false
unfolding codes_lt
codes_lt-asym [] [] p = refl
codes_lt-asym (x ∷ xs) [] p = cc
codes_lt-asym [] (y ∷ ys) p = refl
codes_lt-asym (x ∷ xs) (y ∷ ys) p = ground (arith, codes_lt-asym xs ys)

codes_lt-cotrans :
    (xs ys zs : List ℕ) → codes_lt xs zs ≡ true → codes_lt xs ys ≡ false → codes_lt ys zs ≡ true
unfolding codes_lt
codes_lt-cotrans xs ys [] p q = ground arith
codes_lt-cotrans xs [] (z ∷ zs) p q = refl
codes_lt-cotrans [] (y ∷ ys) (z ∷ zs) p q = cc
codes_lt-cotrans (x ∷ xs) (y ∷ ys) (z ∷ zs) p q = ground (arith, codes_lt-cotrans xs ys zs)

-- `<` of two texts, by code points.
unfoldable pub str_lt : String → String → Bool
unfolding codes_lt
str_lt s t = codes_lt (codes s) (codes t)

pub str_lt-IsWeakOrder : IsWeakOrder str_lt
unfolding str_lt
str_lt-IsWeakOrder = record {
  asym = λ a b. codes_lt-asym (codes a) (codes b);
  cotrans = λ a b c. codes_lt-cotrans (codes a) (codes b) (codes c);
}

module _ {A : Type 0} (lt : A → A → Bool) where
  -- `min(best, *rest, key=...)`: the first of the least.
  unfoldable pub min_by : A → List A → A
  min_by best [] = best
  min_by best (y ∷ ys) = min_by (if lt y best then y else best) ys

  pub min_by-Occurs : (best : A) (ys : List A) → Occurs (min_by best ys) (best ∷ ys)
  unfolding min_by
  min_by-Occurs best [] = inl refl
  min_by-Occurs best (y ∷ ys) = elim (min_by-Occurs (if lt y best then y else best) ys) [
    | inl q ↦ elim (Bool-cases (lt y best)) [
      | inl p ↦ inr (inl (q ∙ rw p))
      | inr p ↦ inl (q ∙ rw p)
    ]
    | inr q ↦ inr (inr q)
  ]

  module _ (order : IsWeakOrder lt) where
    min_by-le_best : (s best : A) (ys : List A) → lt s best ≡ false → lt s (min_by best ys) ≡ false
    unfolding min_by
    min_by-le_best s best [] p = p
    min_by-le_best s best (y ∷ ys) p =
        min_by-le_best s (if lt y best then y else best) ys
          (ground (arith, order.cotrans s best y, order.asym y best))

    lt_irrefl : (a : A) → lt a a ≡ false
    lt_irrefl a = ground (arith, order.asym a a)

    -- Nothing in the list is below its minimum.
    pub min_by_least :
        (best : A) (ys : List A) → All (λ y. lt y (min_by best ys) ≡ false) (best ∷ ys)
    unfolding min_by
    min_by_least best [] = (lt_irrefl best, tt)
    min_by_least best (y ∷ ys) =
        let b = if lt y best then y else best in
        (
          min_by-le_best best b ys (ground (arith, order.asym y best, lt_irrefl best)),
          (min_by-le_best y b ys (ground (arith, lt_irrefl y)), (min_by_least b ys).1),
        )

  -- `sorted(xs, key=...)`, which is stable.
  unfoldable pub insert_sorted : A → List A → List A
  insert_sorted a [] = a ∷ []
  insert_sorted a (x ∷ xs) = if lt x a then x ∷ insert_sorted a xs else a ∷ x ∷ xs

  unfoldable pub sorted : List A → List A
  unfolding insert_sorted
  sorted [] = []
  sorted (x ∷ xs) = insert_sorted x (sorted xs)

  Occurs-insert_sorted : (b a : A) (xs : List A) → Occurs b (insert_sorted a xs) → Occurs b (a ∷ xs)
  unfolding insert_sorted
  Occurs-insert_sorted b a [] h = h
  Occurs-insert_sorted b a (x ∷ xs) h = elim (Bool-cases (lt x a)) [
    | inl p ↦ elim (rw p at h) [
      | inl q ↦ inr (inl q)
      | inr q ↦ elim (Occurs-insert_sorted b a xs q) [ inl r ↦ inl r | inr r ↦ inr (inr r) ]
    ]
    | inr p ↦ rw p at h
  ]

  insert_sorted-Occurs : (b a : A) (xs : List A) → Occurs b (a ∷ xs) → Occurs b (insert_sorted a xs)
  unfolding insert_sorted
  insert_sorted-Occurs b a [] h = h
  insert_sorted-Occurs b a (x ∷ xs) h = elim (Bool-cases (lt x a)) [
    | inl p ↦ rw p (elim h [
      | inl q ↦ inr (insert_sorted-Occurs b a xs (inl q))
      | inr q ↦ elim q [ inl r ↦ inl r | inr r ↦ inr (insert_sorted-Occurs b a xs (inr r)) ]
    ])
    | inr p ↦ rw p h
  ]

  -- Sorting keeps the elements.
  pub Occurs-sorted : (b : A) (xs : List A) → Occurs b (sorted xs) ↔ Occurs b xs
  unfolding sorted
  Occurs-sorted b [] = (λ h. h, λ h. h)
  Occurs-sorted b (x ∷ xs) = (
    λ h. elim (Occurs-insert_sorted b x (sorted xs) h) [
      | inl p ↦ inl p
      | inr p ↦ inr ((Occurs-sorted b xs).0 p)
    ],
    λ h.
        insert_sorted-Occurs b x (sorted xs)
          (elim h [ inl p ↦ inl p | inr p ↦ inr ((Occurs-sorted b xs).1 p) ]),
  )
