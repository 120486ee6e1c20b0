-- ===== src/Base/Keys.antt =====
-- Keys with a decidable equality, membership, and dictionaries as association lists in insertion
-- order.
use mathlib.Core.Path.{◌≡◌, refl, ap}
use mathlib.Core.Logic.{◌↔◌, inl, inr}
use mathlib.Core.Bool.{Bool, true, false, not, ◌&&◌, ◌||◌}
use mathlib.Core.Option.{Option, none, some}
use mathlib.Core.List.{List, [], ◌∷◌}
use Prim.Native.Nat.{ℕ}
use Prim.Native.String.{String}
use native.Mathlib.Omega.{arith}
use text.Mathlib.Text.{◌==◌ as str_eq}
use text.Mathlib.TextEquality.{eq_iff}
use agent_loop_gate.Base.Tests.{◌==◌, if◌then◌else◌, Bool-cases, and_true}
use agent_loop_gate.Base.Lists.{all, Occurs}

pub record Eq (A : Type 0) : Type 0 where
  pub beq : A → A → Bool
  pub beq_iff : (a b : A) → (beq a b ≡ true) ↔ (a ≡ b)

abbrev pub same : {A : Type 0} ⦃e : Eq A⦄ → A → A → Bool
same ⦃e⦄ = e.beq

pub same_iff : {A : Type 0} ⦃e : Eq A⦄ (a b : A) → (same a b ≡ true) ↔ (a ≡ b)
same_iff ⦃e⦄ = e.beq_iff

pub nat_beq_iff : (a b : ℕ) → ((a == b) ≡ true) ↔ (a ≡ b)
nat_beq_iff a b = ground arith

instance abbrev pub nat_eq : Eq ℕ
nat_eq = record { beq = ◌==◌; beq_iff = nat_beq_iff }

instance abbrev pub string_eq : Eq String
string_eq = record { beq = str_eq; beq_iff = eq_iff }

abbrev pub is_yes : {P : Type 0} → Dec P → Bool
is_yes (yes h) = true
is_yes (no h) = false

pub is_yes_iff : {P : Type 0} (d : Dec P) → (is_yes d ≡ true) ↔ P
is_yes_iff (yes h) = (λ e. h, λ p. refl)
is_yes_iff (no h) = (λ e. cc, λ p. absurd (h p))

-- The equality of an enumeration.
abbrev pub eq_of_discrete : {A : Type 0} → Discrete A → Eq A
eq_of_discrete d = record { beq = λ a b. is_yes (d a b); beq_iff = λ a b. is_yes_iff (d a b) }

abbrev pub same_option : {A : Type 0} ⦃e : Eq A⦄ → Option A → Option A → Bool
same_option none none = true
same_option (some a) (some b) = same a b
same_option _ _ = false

pub some_of : {A : Type 0} {a b : A} → some a ≡ some b → a ≡ b
some_of h = cc h

pub option_beq_iff : {A : Type 0} ⦃e : Eq A⦄ (o p : Option A) → (same_option o p ≡ true) ↔ (o ≡ p)
option_beq_iff none none = (λ h. refl, λ h. refl)
option_beq_iff none (some b) = (λ h. cc h, λ h. cc h)
option_beq_iff (some a) none = (λ h. cc h, λ h. cc h)
option_beq_iff (some a) (some b) =
    (λ h. ap (λ x. some x) ((same_iff a b).0 h), λ h. (same_iff a b).1 (some_of h))

instance abbrev pub option_eq : {A : Type 0} ⦃e : Eq A⦄ → Eq (Option A)
option_eq = record { beq = same_option; beq_iff = option_beq_iff }

abbrev pub same_both : {A B : Type 0} ⦃e : Eq A⦄ ⦃f : Eq B⦄ → A × B → A × B → Bool
same_both (a, x) (b, y) = same a b && same x y

both_of : {A B : Type 0} {a b : A} {x y : B} → a ≡ b → x ≡ y → ◌≡◌ {A = A × B} (a, x) (b, y)
both_of h k = rw (h, k)

pub product_beq_iff :
    {A B : Type 0} ⦃e : Eq A⦄ ⦃f : Eq B⦄ (p q : A × B) → (same_both p q ≡ true) ↔ (p ≡ q)
product_beq_iff (a, x) (b, y) = (
  λ h. both_of ((same_iff a b).0 (and_true _ _ h).0) ((same_iff x y).0 (and_true _ _ h).1),
  λ h. rw ((same_iff a b).1 (ap (λ p. p.0) h), (same_iff x y).1 (ap (λ p. p.1) h)),
)

-- The equality of pairs, which is no instance: several modules have one of their own.
abbrev pub product_eq : {A B : Type 0} → Eq A → Eq B → Eq (A × B)
product_eq e f = record {
  beq = same_both ⦃e = e⦄ ⦃f = f⦄;
  beq_iff = product_beq_iff ⦃e = e⦄ ⦃f = f⦄;
}

module _ {A : Type 0} ⦃e : Eq A⦄ where
  -- `x in xs`
  abbrev pub contains : A → List A → Bool
  contains a [] = false
  contains a (x ∷ xs) = same a x || contains a xs

  pub Occurs-contains : (a : A) (xs : List A) → contains a xs ≡ true → Occurs a xs
  Occurs-contains a [] h = cc
  Occurs-contains a (x ∷ xs) h = elim (Bool-cases (same a x)) [
    | inl p ↦ inl ((same_iff a x).0 p)
    | inr p ↦ inr (Occurs-contains a xs (ground arith))
  ]

  pub contains-Occurs : (a : A) (xs : List A) → Occurs a xs → contains a xs ≡ true
  contains-Occurs a [] h = elim h [ ]
  contains-Occurs a (x ∷ xs) (inl p) = rw ((same_iff a x).1 p)
  contains-Occurs a (x ∷ xs) (inr p) = ground (arith, contains-Occurs a xs p)

  pub same_of : (a b : A) → not (same a b) ≡ false → a ≡ b
  same_of a b h = (same_iff a b).0 (ground arith)

  -- `len(xs) == len(set(xs))`
  abbrev pub is_unique : List A → Bool
  is_unique [] = true
  is_unique (x ∷ xs) = not (contains x xs) && is_unique xs

  -- `set(xs)`, of equal elements the last one.
  abbrev pub distinct : List A → List A
  distinct [] = []
  distinct (x ∷ xs) = if contains x xs then distinct xs else x ∷ distinct xs

  -- `set(xs) <= set(ys)` and `set(xs) == set(ys)`
  abbrev pub is_subset : List A → List A → Bool
  is_subset xs ys = all (λ x. contains x ys) xs

  abbrev pub same_set : List A → List A → Bool
  same_set xs ys = is_subset xs ys && is_subset ys xs

  pub Occurs-is_subset :
      (a : A) (xs ys : List A) → is_subset xs ys ≡ true → Occurs a xs → Occurs a ys
  Occurs-is_subset a [] ys h p = elim p [ ]
  Occurs-is_subset a (x ∷ xs) ys h (inl p) = rw p (Occurs-contains x ys (and_true _ _ h).0)
  Occurs-is_subset a (x ∷ xs) ys h (inr p) = Occurs-is_subset a xs ys (ground arith) p

  pub is_subset-Occurs :
      (xs ys : List A) → ((x : A) → Occurs x xs → contains x ys ≡ true) → is_subset xs ys ≡ true
  is_subset-Occurs [] ys f = refl
  is_subset-Occurs (x ∷ xs) ys f =
      ground (arith, f x (inl refl), is_subset-Occurs xs ys (λ y o. f y (inr o)))

module _ {K : Type 0} {V : Type 0} where
  abbrev pub keys : List (K × V) → List K
  keys [] = []
  keys ((k, v) ∷ d) = k ∷ keys d

  abbrev pub values : List (K × V) → List V
  values [] = []
  values ((k, v) ∷ d) = v ∷ values d

module _ {K : Type 0} {V : Type 0} ⦃e : Eq K⦄ where
  -- `d.get(k)`
  abbrev pub lookup : K → List (K × V) → Option V
  lookup k [] = none
  lookup k ((j, v) ∷ d) = if same k j then some v else lookup k d

  -- `d[k] = v`
  abbrev pub insert : K → V → List (K × V) → List (K × V)
  insert k v [] = (k, v) ∷ []
  insert k v ((j, w) ∷ d) = if same k j then (k, v) ∷ d else (j, w) ∷ insert k v d

  pub lookup-insert :
      (k j : K) (v : V) (d : List (K × V))
      → lookup j (insert k v d) ≡ (if same j k then some v else lookup j d)
  lookup-insert k j v [] = refl
  lookup-insert k j v ((i, w) ∷ d) =
      ground (arith, same_iff k i, same_iff j i, same_iff j k, lookup-insert k j v d)

  pub lookup-keys :
      (k : K) (d : List (K × V)) → contains k (keys d) ≡ true → (v : V) × (lookup k d ≡ some v)
  lookup-keys k [] h = cc
  lookup-keys k ((j, v) ∷ d) h = elim (Bool-cases (same k j)) [
    | inl p ↦ (v, rw p)
    | inr p ↦ let (w, e) = lookup-keys k d (rw p at h) in (w, rw p e)
  ]

  pub contains-keys-insert :
      (j k : K) (v : V) (d : List (K × V))
      → contains j (keys (insert k v d)) ≡ (same j k || contains j (keys d))
  contains-keys-insert j k v [] = refl
  contains-keys-insert j k v ((i, w) ∷ d) =
      ground (arith, same_iff k i, same_iff j i, same_iff j k, contains-keys-insert j k v d)

  pub keys-lookup :
      (k : K) (d : List (K × V)) (v : V) → lookup k d ≡ some v → contains k (keys d) ≡ true
  keys-lookup k [] v h = cc h
  keys-lookup k ((j, w) ∷ d) v h = elim (Bool-cases (same k j)) [
    | inl p ↦ rw p
    | inr p ↦ ground (arith, keys-lookup k d v (rw p at h))
  ]
