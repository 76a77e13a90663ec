-- ===== src/Ids/Decimal.antt =====
-- Reading back what `format_05d` writes.
use mathlib.Core.List.{reverse-append, reverse-reverse}
use homeinfra_control_center.Prelude.{
  ℕ, zero, suc, ◌+◌, ◌-◌, ◌/◌, ◌%◌, ◌≤◌, ◌<◌, ◌≡◌, refl, true, false, none, some, [], ◌∷◌, ◌++◌,
  Text, txt, strip, arith, nat_eq, length, All, ap, ◌∙◌, reverse, drop_while, is_space,
}
use homeinfra_control_center.Ids.{
  is_digit, scan_int, unsigned, parse_int, after_last_dash, emit, zeros, format_05d,
}

abbrev pub AllDigits : Text → Type 0
AllDigits = All (λ c. is_digit c ≡ true)

scan_digit :
    (n : ℕ) (out : Text) → scan_int false ((b'0' + n % 10) ∷ out) (n / 10) ≡ scan_int false out n
unfolding scan_int
scan_digit n out = ground arith

scan_int-emit :
    (fuel n : ℕ) (out : Text) → n ≤ fuel → scan_int false (emit fuel n out) 0 ≡ scan_int false out n
unfolding emit
scan_int-emit zero n out h = ground arith
scan_int-emit (suc fuel) n out h =
    ground (arith, scan_int-emit fuel (n / 10) ((b'0' + n % 10) ∷ out), scan_digit n out)

digit_of_last : (n : ℕ) → is_digit (b'0' + n % 10) ≡ true
unfolding is_digit
digit_of_last n = ground arith

emit-AllDigits : (fuel n : ℕ) (out : Text) → AllDigits out → AllDigits (emit fuel n out)
unfolding emit
emit-AllDigits zero n out h = h
emit-AllDigits (suc fuel) n out h =
    ground (arith, emit-AllDigits fuel (n / 10) ((b'0' + n % 10) ∷ out) (digit_of_last n, h))

scan_int-zeros : (k : ℕ) (s : Text) → scan_int false (zeros k s) 0 ≡ scan_int false s 0
unfolding scan_int
scan_int-zeros zero s = refl
scan_int-zeros (suc k) s = scan_int-zeros k s

zeros-AllDigits : (k : ℕ) (s : Text) → AllDigits s → AllDigits (zeros k s)
unfolding is_digit
zeros-AllDigits zero s h = h
zeros-AllDigits (suc k) s h = (refl, zeros-AllDigits k s h)

pub format_05d-AllDigits : (n : ℕ) → AllDigits (format_05d n)
unfolding format_05d
format_05d-AllDigits n = zeros-AllDigits _ _ (emit-AllDigits n n [] tt)

length-zeros : (k : ℕ) (s : Text) → length (zeros k s) ≡ k + length s
length-zeros zero s = omega arith
length-zeros (suc k) s = omega (arith, length-zeros k s)

-- At least five digits are written.
pub length-format_05d : (n : ℕ) → 5 ≤ length (format_05d n)
unfolding format_05d
length-format_05d n = omega (arith, length-zeros (5 - length (emit n n [])) (emit n n []))

-- No digit is a white-space character, a plus sign or a dash.
digit_class :
    (c : ℕ)
    → is_digit c ≡ true
    → (is_space c ≡ false) × (nat_eq c b'+' ≡ false) × (nat_eq c b'-' ≡ false)
unfolding is_digit is_space
digit_class c h = ground arith

drop_while_digits : (s : Text) → AllDigits s → drop_while is_space s ≡ s
drop_while_digits [] h = refl
drop_while_digits (c ∷ s) h = rw (digit_class c h.0).0

AllDigits-append : (s t : Text) → AllDigits s → AllDigits t → AllDigits (s ++ t)
AllDigits-append [] t hs ht = ht
AllDigits-append (c ∷ s) t hs ht = (hs.0, AllDigits-append s t hs.1 ht)

AllDigits-reverse : (s : Text) → AllDigits s → AllDigits (reverse s)
AllDigits-reverse [] h = tt
AllDigits-reverse (c ∷ s) h =
    rw (reverse-append (c ∷ []) s)
      (AllDigits-append (reverse s) (c ∷ []) (AllDigits-reverse s h.1) (h.0, tt))

strip_digits : (s : Text) → AllDigits s → strip s ≡ s
unfolding strip
strip_digits s h =
    rw (drop_while_digits s h, drop_while_digits (reverse s) (AllDigits-reverse s h))
      (reverse-reverse s)

unsigned_digits : (s : Text) → AllDigits s → 0 < length s → unsigned s ≡ scan_int false s 0
unfolding unsigned
unsigned_digits [] h p = absurd (omega arith)
unsigned_digits (c ∷ s) h p = ground (arith, digit_class c h.0)

scan_int-format_05d : (n : ℕ) → scan_int false (format_05d n) 0 ≡ some n
unfolding format_05d scan_int
scan_int-format_05d n =
    scan_int-zeros (5 - length (emit n n [])) (emit n n []) ∙ scan_int-emit n n [] (omega arith)

-- Parsing the zero-padded decimal form of a number gives the number back.
pub parse_int-format_05d : (n : ℕ) → parse_int (format_05d n) ≡ some n
unfolding parse_int
parse_int-format_05d n =
    ap unsigned (strip_digits (format_05d n) (format_05d-AllDigits n))
    ∙ unsigned_digits (format_05d n) (format_05d-AllDigits n) (omega (arith, length-format_05d n))
    ∙ scan_int-format_05d n

after_last_dash-none : (s : Text) → AllDigits s → after_last_dash s ≡ none
unfolding after_last_dash
after_last_dash-none [] h = refl
after_last_dash-none (c ∷ s) h = ground (arith, after_last_dash-none s h.1, digit_class c h.0)

pub after_last_dash-append : (p s : Text) → AllDigits s → after_last_dash (p ++ (b'-' ∷ s)) ≡ some s
unfolding after_last_dash
after_last_dash-append [] s h = ground (arith, after_last_dash-none s h)
after_last_dash-append (c ∷ p) s h = ground (arith, after_last_dash-append p s h)

test1 : format_05d 42 ≡ txt "00042"
unfolding format_05d
test1 = refl

test2 : parse_int (txt " +1_0 ") ≡ some 10
unfolding parse_int
test2 = refl
