-- ===== src/Parsers/Numbers.antt =====
-- `int(...)`, `float(...)` and `round(...)` as homeinfra/parsers.py uses them. A float is the
-- decimal fraction that its text writes, or an exact quotient: the binary rounding of IEEE 754 is
-- not modelled, and the texts `inf` and `nan` are no numbers.
pub mod Rounding
use homeinfra_control_center.Prelude.{
  ℕ, zero, suc, ◌+◌, ◌-◌, ◌*◌, ◌/◌, ◌%◌, Bool, true, false, ◌&&◌, ◌||◌, Option, none, some, [], ◌∷◌,
  Text, strip, ltb, leb, nat_eq, if◌then◌else◌, is_empty,
}
use homeinfra_control_center.Prelude.Int.{ℤ, pos, negsuc, pos_part, neg_part}
use homeinfra_control_center.Ids.{is_digit, scan_int, unsigned}
use homeinfra_control_center.Model.Json.{Value, dec}
use homeinfra_control_center.Monitoring.Values.{power_of_ten, times_ℤ}

abbrev pub opposite : ℕ → ℤ
opposite zero = pos 0
opposite (suc n) = negsuc n

-- The value behind a sign.
abbrev pub signed : Text → (Text → Option ℕ) → Option ℤ
signed [] read = none
signed (c ∷ s) read =
    if nat_eq c b'-'
    then elim (read s) [ none ↦ none | some n ↦ some (opposite n) ]
    else elim (read (if nat_eq c b'+' then s else c ∷ s)) [ none ↦ none | some n ↦ some (pos n) ]

-- `int(s)`; `none` is a ValueError.
unfoldable pub parse_integer : Text → Option ℤ
unfolding strip scan_int
parse_integer s = signed (strip s) (λ t. scan_int true t 0)

-- The number m / 10^k.
pub record Decimal : Type 0 where
  pub digits : ℤ
  pub scale : ℕ

-- What a run of digits reads, how many they are, and what stands behind them.
pub record Digits : Type 0 where
  pub number : ℕ
  pub width : ℕ
  pub rest : Text

abbrev begins_digit : Text → Bool
begins_digit [] = false
begins_digit (c ∷ s) = is_digit c

-- Single underscores may stand between digits.
unfoldable pub take_digits : Bool → ℕ → ℕ → Text → Digits
unfolding is_digit
take_digits last n width [] = record { number = n; width = width; rest = [] }
take_digits last n width (c ∷ s) =
    let more =
      take_digits (is_digit c) (if is_digit c then n * 10 + (c - b'0') else n)
        (if is_digit c then suc width else width) s in
    if is_digit c || nat_eq c b'_' && last && begins_digit s
    then more
    else record { number = n; width = width; rest = c ∷ s }

-- The digits with those behind the point; `width` counts all, and the last part is the scale.
unfoldable pub take_decimal : Text → Digits × ℕ
unfolding take_digits
take_decimal s =
    let whole = take_digits false 0 0 s in
    elim whole.rest [
      | [] ↦ (whole, 0)
      | c ∷ t ↦
          if nat_eq c b'.'
          then (let all = take_digits false whole.number whole.width t in
              (all, all.width - whole.width))
          else (whole, 0)
    ]

abbrev pub whole_number : Text → Option ℕ
whole_number s =
    let ds = take_digits false 0 0 s in
    if nat_eq ds.width 0 then none else if is_empty ds.rest then some ds.number else none

-- m / 10^k times 10^e.
abbrev pub scaled : ℕ → ℕ → ℤ → ℕ × ℕ
scaled m k (pos e) = (m * power_of_ten (e - k), k - e)
scaled m k (negsuc e) = (m, k + suc e)

-- The exponent of a literal; an empty text stands for none.
unfoldable pub exponent : Text → Option ℤ
unfolding take_digits
exponent [] = some (pos 0)
exponent (c ∷ s) = if nat_eq c b'e' || nat_eq c b'E' then signed s whole_number else none

abbrev pub unsigned_float : Text → Option (ℕ × ℕ)
unsigned_float s =
    let (ds, k) = take_decimal s in
    if nat_eq ds.width 0
    then none
    else elim (exponent ds.rest) [ none ↦ none | some e ↦ some (scaled ds.number k e) ]

-- `float(s)`; `none` is a ValueError.
unfoldable pub parse_float : Text → Option Decimal
unfolding strip take_decimal exponent
parse_float s = elim (strip s) [
  | [] ↦ none
  | c ∷ t ↦
      let body = if nat_eq c b'-' || nat_eq c b'+' then t else c ∷ t in
      elim (unsigned_float body) [
        | none ↦ none
        | some (m, k) ↦
            some (record { digits = if nat_eq c b'-' then opposite m else pos m; scale = k })
      ]
]

-- An exact quotient.
pub record Fraction : Type 0 where
  pub num : ℤ
  pub den : ℕ

abbrev pub of_decimal : Decimal → Fraction
of_decimal d = record { num = d.digits; den = power_of_ten d.scale }

abbrev pub of_integer : ℤ → Fraction
of_integer z = record { num = z; den = 1 }

-- The nearest whole number, and the even one of two.
unfoldable pub round_half_even : ℕ → ℕ → ℕ
round_half_even num den =
    let q = num / den in
    let r = num % den in
    if ltb (r + r) den
    then q
    else if ltb den (r + r)
    then suc q
    else if nat_eq (q % 2) 0
    then q
    else suc q

-- `round(x, n)`, in units of 10^-n.
unfoldable pub round_units : ℕ → Fraction → ℤ
unfolding round_half_even
round_units n x = elim x.num [
  | pos a ↦ pos (round_half_even (a * power_of_ten n) x.den)
  | negsuc a ↦ opposite (round_half_even (suc a * power_of_ten n) x.den)
]

unfoldable pub round : ℕ → Fraction → Decimal
unfolding round_units
round n x = record { digits = round_units n x; scale = n }

-- A quotient by a whole number.
abbrev pub over : ℕ → Fraction → Fraction
over k x = record { num = x.num; den = k * x.den }

abbrev pub times : ℕ → Fraction → Fraction
times k x = record { num = times_ℤ k x.num; den = x.den }

-- 1024^3, the bytes of a gigabyte.
abbrev pub gigabyte : ℕ
gigabyte = 1073741824

-- `round(size / (1024 ** 3), 2)`
unfoldable pub gigabytes : Fraction → Decimal
unfolding round
gigabytes size = round 2 (over gigabyte size)

abbrev pub float_value : Decimal → Value
float_value d = dec d.digits d.scale
