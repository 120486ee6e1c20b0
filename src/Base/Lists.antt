-- ===== src/Base/Lists.antt =====
-- Lists measured by native numbers, and Boolean searches in them.
use Prim.Native.Nat.{ℕ, suc, ◌+◌, ◌≤◌}
use mathlib.Core.Path.{◌≡◌, refl, sym}
use mathlib.Core.Logic.{◌⊎◌, ◌↔◌, inl, inr}
use mathlib.Core.Bool.{Bool, true, false, ◌&&◌, ◌||◌}
use mathlib.Core.List.{List, [], ◌∷◌, ◌++◌}
use native.Mathlib.Omega.{arith}
use agent_loop_gate.Base.Tests.{if◌then◌else◌, Bool-cases}

module _ {ℓ} {A : Type ℓ} where
  abbrev pub length : List A → ℕ
  length [] = 0
  length (x ∷ xs) = suc (length xs)

  -- `any(...)` and `all(...)`
  abbrev pub any : (A → Bool) → List A → Bool
  any p [] = false
  any p (x ∷ xs) = p x || any p xs

  abbrev pub all : (A → Bool) → List A → Bool
  all p [] = true
  all p (x ∷ xs) = p x && all p xs

  -- `[x for x in xs if p(x)]`
  abbrev pub filter : (A → Bool) → List A → List A
  filter p [] = []
  filter p (x ∷ xs) = if p x then x ∷ filter p xs else filter p xs

  -- `sum(p(x) for x in xs)` over truth values
  abbrev pub count : (A → Bool) → List A → ℕ
  count p [] = 0
  count p (x ∷ xs) = if p x then suc (count p xs) else count p xs

  abbrev pub All {κ} : (A → Type κ) → List A → Type κ
  All P [] = Unit
  All P (x ∷ xs) = P x × All P xs

  pub All-all : (p : A → Bool) (xs : List A) → all p xs ≡ true → All (λ x. p x ≡ true) xs
  All-all p [] h = tt
  All-all p (x ∷ xs) h = (ground arith, All-all p xs (ground arith))

  pub all-All : (p : A → Bool) (xs : List A) → All (λ x. p x ≡ true) xs → all p xs ≡ true
  all-All p [] h = refl
  all-All p (x ∷ xs) h = ground (arith, all-All p xs h.1)

  pub All-mono {κ κ'} :
      (P : A → Type κ) (Q : A → Type κ') (xs : List A) → ((x : A) → P x → Q x) → All P xs → All Q xs
  All-mono P Q [] f h = tt
  All-mono P Q (x ∷ xs) f h = (f x h.0, All-mono P Q xs f h.1)

  pub All-append {κ} : (P : A → Type κ) (xs ys : List A) → All P xs → All P ys → All P (xs ++ ys)
  All-append P [] ys hx hy = hy
  All-append P (x ∷ xs) ys hx hy = (hx.0, All-append P xs ys hx.1 hy)

  pub count-le-length : (p : A → Bool) (xs : List A) → count p xs ≤ length xs
  count-le-length p [] = omega arith
  count-le-length p (x ∷ xs) = ground (arith, count-le-length p xs)

  pub length-append : (xs ys : List A) → length (xs ++ ys) ≡ length xs + length ys
  length-append [] ys = omega arith
  length-append (x ∷ xs) ys = omega (arith, length-append xs ys)

-- `a` stands at some place of the list.
abbrev pub Occurs : {A : Type 0} → A → List A → Type 0
Occurs a [] = ⊥
Occurs a (x ∷ xs) = (a ≡ x) ⊎ Occurs a xs

pub All-Occurs : {A : Type 0} (P : A → Type 0) (a : A) (xs : List A) → All P xs → Occurs a xs → P a
All-Occurs P a [] h p = elim p [ ]
All-Occurs P a (x ∷ xs) h (inl p) = rw p h.0
All-Occurs P a (x ∷ xs) h (inr p) = All-Occurs P a xs h.1 p

pub Occurs-append :
    {A : Type 0} (a : A) (xs ys : List A) → Occurs a (xs ++ ys) ↔ (Occurs a xs ⊎ Occurs a ys)
Occurs-append a [] ys = (λ h. inr h, λ h. elim h [ inl o ↦ elim o [ ] | inr o ↦ o ])
Occurs-append a (x ∷ xs) ys =
    let ih = Occurs-append a xs ys in
    (
      λ h. elim h [
        | inl e ↦ inl (inl e)
        | inr o ↦ elim (ih.0 o) [ inl l ↦ inl (inr l) | inr r ↦ inr r ]
      ],
      λ h. elim h [
        | inl o ↦ elim o [ inl e ↦ inl e | inr l ↦ inr (ih.1 (inl l)) ]
        | inr r ↦ inr (ih.1 (inr r))
      ],
    )

pub Occurs-filter :
    {A : Type 0} (p : A → Bool) (x : A) (xs : List A) → Occurs x (filter p xs) → Occurs x xs
Occurs-filter p x [] o = o
Occurs-filter p x (y ∷ xs) o = elim (Bool-cases (p y)) [
  | inl e ↦ elim (rw e at o) [ inl q ↦ inl q | inr more ↦ inr (Occurs-filter p x xs more) ]
  | inr e ↦ inr (Occurs-filter p x xs (rw e at o))
]

pub filter-Occurs :
    {A : Type 0} (p : A → Bool) (x : A) (xs : List A)
    → Occurs x xs
    → p x ≡ true
    → Occurs x (filter p xs)
filter-Occurs p x [] o h = o
filter-Occurs p x (y ∷ xs) (inl e) h = rw (sym e, h) (inl refl)
filter-Occurs p x (y ∷ xs) (inr o) h = elim (Bool-cases (p y)) [
  | inl e ↦ rw e (inr (filter-Occurs p x xs o h))
  | inr e ↦ rw e (filter-Occurs p x xs o h)
]
