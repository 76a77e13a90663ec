-- ===== src/Parsers/Numbers/Rounding.antt =====
-- Bounds of `round_half_even`.
use homeinfra_control_center.Prelude.{ℕ, ◌+◌, ◌*◌, ◌/◌, ◌%◌, ◌≤◌, ◌<◌, arith}
use native.Mathlib.Nat.{mul-le-mul_right, div-add-mod'}
use native.Mathlib.Decide.{dec_lt}
use homeinfra_control_center.Parsers.Numbers.{round_half_even}

larger_product : (den bound q : ℕ) → bound < q → bound * den + den ≤ q * den
larger_product den bound q lt =
    omega (arith, mul-le-mul_right {m = bound + 1} {n = q} den (omega arith))

quotient-le : (q r den bound : ℕ) → 0 < den → q * den + r ≤ bound * den → q ≤ bound
quotient-le q r den bound positive le = elim (dec_lt bound q) [
  | yes lt ↦ absurd (omega (arith, larger_product den bound q lt))
  | no h ↦ omega arith
]

-- Where something is left over, the quotient is smaller.
quotient-lt : (q r den bound : ℕ) → 0 < r → q * den + r ≤ bound * den → q < bound
quotient-lt q r den bound left le = elim (dec_lt q bound) [
  | yes lt ↦ lt
  | no h ↦ absurd (omega (arith, mul-le-mul_right {m = bound} {n = q} den (omega arith)))
]

-- A quotient that is at most a whole number is not rounded above it.
pub round_half_even-le :
    (num den bound : ℕ) → 0 < den → num ≤ bound * den → round_half_even num den ≤ bound
unfolding round_half_even
round_half_even-le num den bound positive le =
    let divided = div-add-mod' num den in
    let small = quotient-le (num / den) (num % den) den bound positive (omega arith) in
    ground (arith, quotient-lt (num / den) (num % den) den bound)
