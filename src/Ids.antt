-- ===== src/Ids.antt =====
-- `_next_numbered_id` of homeinfra/auth.py and homeinfra/monitoring.py, with the parts of
-- Python's text functions that it calls: `int(...)`, `rsplit("-", 1)[1]` and the format `05d`.
-- Decimal digits are the ASCII ones.
pub mod Decimal
pub mod Fresh
use homeinfra_control_center.Prelude.{
  ℕ, zero, suc, ◌+◌, ◌-◌, ◌*◌, ◌/◌, ◌%◌, Bool, true, false, ◌&&◌, ◌||◌, not, Option, none, some,
  List, [], ◌∷◌, ◌++◌, Text, txt, strip, starts_with, max, leb, nat_eq, length, if◌then◌else◌,
}

unfoldable pub is_digit : ℕ → Bool
is_digit c = leb b'0' c && leb c b'9'

-- The digits of `int(...)`: single underscores may stand between digits. `need` says that a
-- digit has to come next.
unfoldable pub scan_int : Bool → Text → ℕ → Option ℕ
unfolding is_digit
scan_int true [] n = none
scan_int false [] n = some n
scan_int need (c ∷ s) n =
    let rest = scan_int (not (is_digit c)) s (if is_digit c then n * 10 + (c - b'0') else n) in
    if is_digit c || nat_eq c b'_' && not need then rest else none

-- The digits behind an optional plus sign.
unfoldable pub unsigned : Text → Option ℕ
unfolding scan_int
unsigned [] = none
unsigned (c ∷ t) = if nat_eq c b'+' then scan_int true t 0 else scan_int true (c ∷ t) 0

-- `int(s)` for a text with no minus sign; `none` is a ValueError.
unfoldable pub parse_int : Text → Option ℕ
unfolding strip unsigned
parse_int s = unsigned (strip s)

-- `s.rsplit("-", 1)[1]`; `none` is the IndexError of a text without a dash.
unfoldable pub after_last_dash : Text → Option Text
after_last_dash [] = none
after_last_dash (c ∷ s) = elim (after_last_dash s) [
  | some t ↦ some t
  | none ↦ if nat_eq c b'-' then some s else none
]

-- The decimal digits of a number, put in front of `out`. A division by ten is a round, and `n`
-- rounds are enough for `n`.
unfoldable pub emit : ℕ → ℕ → Text → Text
emit zero n out = out
emit (suc fuel) n out =
    let rest = emit fuel (n / 10) ((b'0' + n % 10) ∷ out) in if nat_eq n 0 then out else rest

abbrev pub zeros : ℕ → Text → Text
zeros zero s = s
zeros (suc k) s = b'0' ∷ zeros k s

-- `f"{n:05d}"`
unfoldable pub format_05d : ℕ → Text
unfolding emit
format_05d n = let s = emit n n [] in zeros (5 - length s) s

-- One round of the loop: `continue` on a foreign prefix and on a ValueError.
unfoldable pub raise_highest : Text → ℕ → Text → ℕ
unfolding starts_with after_last_dash parse_int
raise_highest prefix highest item_id =
    if starts_with (prefix ++ txt "-") item_id
    then elim (after_last_dash item_id) [
      | none ↦ highest
      | some t ↦ elim (parse_int t) [ none ↦ highest | some n ↦ max highest n ]
    ]
    else highest

unfoldable pub highest_of : Text → ℕ → List Text → ℕ
unfolding raise_highest
highest_of prefix highest [] = highest
highest_of prefix highest (item_id ∷ ids) =
    highest_of prefix (raise_highest prefix highest item_id) ids

-- `_next_numbered_id(prefix, items)`, given the ids of the items.
unfoldable pub next_numbered_id : Text → List Text → Text
unfolding highest_of format_05d
next_numbered_id prefix ids = prefix ++ (b'-' ∷ format_05d (highest_of prefix 0 ids + 1))
