-- ===== src/Base/Decimals.antt =====
-- Python's non-negative `Decimal`, under the default context of 28 digits, which rounds half to
-- even. A value is read up to trailing zeros, and exponents have no bound.
use agent_loop_gate.Base.Tests.{ltb→lt, lt→ltb, ltb-false, ltb, leb, ◌==◌, if◌then◌else◌}
use agent_loop_gate.Base.Sorting.{IsWeakOrder}
use Prim.Native.Nat.{ℕ, zero, suc, ◌+◌, ◌-◌, ◌*◌, ◌/◌, ◌%◌, ◌^◌, ◌≤◌, ◌<◌}
use mathlib.Core.Path.{◌≡◌, refl}
use mathlib.Core.Bool.{Bool, true, false}
use mathlib.Core.List.{List, [], ◌∷◌}
use native.Mathlib.Nat.{lt_of_mul-lt-mul_left, mul-le-mul_right, mul-lt-mul_of_pos_right, pow-suc}
use native.Mathlib.Omega.{arith}

-- The value is `coeff / 10 ^ scale`.
pub record Decimal : Type 0 where
  pub coeff : ℕ
  pub scale : ℕ

abbrev pub whole : ℕ → Decimal
whole n = record { coeff = n; scale = 0 }

-- Significant digits kept by an operation.
abbrev precision : ℕ
precision = 28

digit_count_from : ℕ → ℕ → ℕ
digit_count_from zero n = 0
digit_count_from (suc f) n = elim (ltb n 10) [ true ↦ 1 | false ↦ digit_count_from f (n / 10) + 1 ]

-- The number of decimal digits. Each round divides by ten, so `n + 1` rounds are enough.
digit_count : ℕ → ℕ
unfolding digit_count_from
digit_count n = digit_count_from (suc n) n

-- `n / d` to the nearest integer, a tie to the even one.
round_half_even : ℕ → ℕ → ℕ
round_half_even n d =
    let q = n / d in
    let r = n % d in if ltb (2 * r) d then q else if ltb d (2 * r) then q + 1 else q + q % 2

-- `(n / d) / 10 ^ s`, where `n / d` has `k` digits too many.
rescale : ℕ → ℕ → ℕ → ℕ → Decimal
unfolding round_half_even
rescale n d s k =
    let q = round_half_even n (d * 10 ^ k) in
    if leb k s
    then record { coeff = q; scale = s - k }
    else record { coeff = q * 10 ^ (k - s); scale = 0 }

-- A result in the context: rounded to the precision.
unfoldable pub in_context : Decimal → Decimal
unfolding digit_count rescale
in_context a = rescale a.coeff 1 a.scale (digit_count a.coeff - precision)

unfoldable pub add : Decimal → Decimal → Decimal
unfolding in_context
add a b =
    in_context (record {
      coeff = a.coeff * 10 ^ b.scale + b.coeff * 10 ^ a.scale;
      scale = a.scale + b.scale;
    })

unfoldable pub mul : Decimal → Decimal → Decimal
unfolding in_context
mul a b = in_context (record { coeff = a.coeff * b.coeff; scale = a.scale + b.scale })

-- `a / b` at a divisor that is not zero.
unfoldable pub div : Decimal → Decimal → Decimal
unfolding digit_count rescale
div a b =
    let n = a.coeff * 10 ^ b.scale in
    let d = b.coeff * 10 ^ a.scale in
    let s = precision + digit_count d in
    rescale (n * 10 ^ s) d s (digit_count (n * 10 ^ s / d) - precision)

-- `sum(xs, Decimal(0))`
unfoldable pub sum_from : Decimal → List Decimal → Decimal
unfolding add
sum_from acc [] = acc
sum_from acc (x ∷ xs) = sum_from (add acc x) xs

abbrev pub lt : Decimal → Decimal → Bool
lt a b = ltb (a.coeff * 10 ^ b.scale) (b.coeff * 10 ^ a.scale)

abbrev pub le : Decimal → Decimal → Bool
le a b = leb (a.coeff * 10 ^ b.scale) (b.coeff * 10 ^ a.scale)

-- `a == b`
abbrev pub eq : Decimal → Decimal → Bool
eq a b = a.coeff * 10 ^ b.scale == b.coeff * 10 ^ a.scale

-- `a == 0`
abbrev pub is_zero : Decimal → Bool
is_zero a = a.coeff == 0

-- Cross-multiplying by positive scales keeps the order.
cross_multiplied : (a b c p q r : ℕ) → 0 < q → a * r < c * p → b * p ≤ a * q → b * r < c * q
cross_multiplied a b c p q r hq h k =
    lt_of_mul-lt-mul_left p (omega (arith, mul-le-mul_right r k, mul-lt-mul_of_pos_right h hq))

pub pow_pos : (n : ℕ) → 0 < 10 ^ n
pow_pos zero = omega arith
pow_pos (suc n) = simp pow-suc (omega (arith, pow_pos n))

pub lt-IsWeakOrder : IsWeakOrder lt
lt-IsWeakOrder = record {
  asym = λ a b h. ground arith;
  cotrans = λ a b c h k. lt→ltb _ _ (
      cross_multiplied a.coeff b.coeff c.coeff (10 ^ a.scale) (10 ^ b.scale) (10 ^ c.scale)
        (pow_pos b.scale) (ltb→lt _ _ h) (ltb-false _ _ k));
}

third : div (whole 1) (whole 3) ≡ record { coeff = 3333333333333333333333333333; scale = 28 }
unfolding div
third = refl

half_of_sum :
    div (add (whole 7) (record { coeff = 25; scale = 2 })) (whole 2)
    ≡ record { coeff = 3625000000000000000000000000; scale = 27 }
unfolding div add
half_of_sum = refl
