-- ===== src/Statistics/Order.antt =====
-- Sorted lists of integers.
use agent_loop_gate.Base.{
  ℕ, zero, suc, ◌≤◌, Bool, true, false, some, List, [], ◌∷◌, length, All, All-mono, ◌≡◌, refl,
  arith, Bool-cases, inl, inr, some_of, sym, ◌∙◌,
}
use mathlib.Core.Path.{subst}
use agent_loop_gate.Base.Int.{ℤ, ◌≤ℤ◌, ltb_ℤ}
use agent_loop_gate.Base.Sorting.{sorted, insert_sorted}
use agent_loop_gate.Statistics.{item_at}

abbrev pub IsAscending : List ℤ → Type 0
IsAscending [] = Unit
IsAscending (x ∷ xs) = All (λ y. x ≤ℤ y) xs × IsAscending xs

pub All-insert_sorted :
    (P : ℤ → Type 0) (a : ℤ) (xs : List ℤ) → P a → All P xs → All P (insert_sorted ltb_ℤ a xs)
unfolding insert_sorted
All-insert_sorted P a [] p h = (p, tt)
All-insert_sorted P a (x ∷ xs) p h = elim (Bool-cases (ltb_ℤ x a)) [
  | inl q ↦ rw q (h.0, All-insert_sorted P a xs p h.1)
  | inr q ↦ rw q (p, h)
]

pub All-sorted : (P : ℤ → Type 0) (xs : List ℤ) → All P xs → All P (sorted ltb_ℤ xs)
unfolding sorted
All-sorted P [] h = tt
All-sorted P (x ∷ xs) h = All-insert_sorted P x (sorted ltb_ℤ xs) h.0 (All-sorted P xs h.1)

at_most : (x a : ℤ) → ltb_ℤ x a ≡ true → x ≤ℤ a
at_most x a h = ground (arith, h)

not_below : (x a : ℤ) → ltb_ℤ x a ≡ false → a ≤ℤ x
not_below x a h = ground (arith, h)

insert_sorted-IsAscending :
    (a : ℤ) (xs : List ℤ) → IsAscending xs → IsAscending (insert_sorted ltb_ℤ a xs)
unfolding insert_sorted
insert_sorted-IsAscending a [] h = (tt, tt)
insert_sorted-IsAscending a (x ∷ xs) h = elim (Bool-cases (ltb_ℤ x a)) [
  | inl q ↦
      rw q (
        All-insert_sorted (λ y. x ≤ℤ y) a xs (at_most x a q) h.0,
        insert_sorted-IsAscending a xs h.1,
      )
  | inr q ↦
      rw q ((not_below x a q, All-mono _ _ xs (λ y le. omega (arith, le, not_below x a q)) h.0), h)
]

pub sorted-IsAscending : (xs : List ℤ) → IsAscending (sorted ltb_ℤ xs)
unfolding sorted
sorted-IsAscending [] = tt
sorted-IsAscending (x ∷ xs) = insert_sorted-IsAscending x (sorted ltb_ℤ xs) (sorted-IsAscending xs)

pub item_at-All :
    (P : ℤ → Type 0) (xs : List ℤ) (i : ℕ) (a : ℤ) → All P xs → item_at i xs ≡ some a → P a
item_at-All P [] i a h e = cc e
item_at-All P (x ∷ xs) zero a h e = subst P (some_of e) h.0
item_at-All P (x ∷ xs) (suc i) a h e = item_at-All P xs i a h.1 e

-- A later place of an ascending list has no smaller number.
pub item_at-IsAscending :
    (xs : List ℤ) (i j : ℕ) (a b : ℤ)
    → IsAscending xs
    → i ≤ j
    → item_at i xs ≡ some a
    → item_at j xs ≡ some b
    → a ≤ℤ b
item_at-IsAscending [] i j a b h le e f = cc e
item_at-IsAscending (x ∷ xs) zero zero a b h le e f =
    let same_item : a ≡ b = some_of (sym e ∙ f) in rw same_item (omega arith)
item_at-IsAscending (x ∷ xs) zero (suc j) a b h le e f =
    rw (sym (some_of e)) (item_at-All (λ y. x ≤ℤ y) xs j b h.0 f)
item_at-IsAscending (x ∷ xs) (suc i) zero a b h le e f = absurd (omega (arith, le))
item_at-IsAscending (x ∷ xs) (suc i) (suc j) a b h le e f =
    item_at-IsAscending xs i j a b h.1 (omega (arith, le)) e f

pub item_at-length : (xs : List ℤ) (i : ℕ) → suc i ≤ length xs → (a : ℤ) × (item_at i xs ≡ some a)
item_at-length [] i h = absurd (omega (arith, h))
item_at-length (x ∷ xs) zero h = (x, refl)
item_at-length (x ∷ xs) (suc i) h = item_at-length xs i (omega (arith, h))

length-insert_sorted :
    {A : Type 0} (lt : A → A → Bool) (a : A) (xs : List A)
    → length (insert_sorted lt a xs) ≡ suc (length xs)
unfolding insert_sorted
length-insert_sorted lt a [] = refl
length-insert_sorted lt a (x ∷ xs) = ground (arith, length-insert_sorted lt a xs)

pub length-sorted :
    {A : Type 0} (lt : A → A → Bool) (xs : List A) → length (sorted lt xs) ≡ length xs
unfolding sorted
length-sorted lt [] = refl
length-sorted lt (x ∷ xs) =
    omega (arith, length-insert_sorted lt x (sorted lt xs), length-sorted lt xs)
