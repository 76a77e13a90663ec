-- ===== src/Parsers/Text.antt =====
-- The methods of `str` that homeinfra/parsers.py calls, on lists of code points.
pub mod Words
use homeinfra_control_center.Prelude.{
  ℕ, zero, suc, Bool, false, ◌&&◌, ◌||◌, not, Option, none, some, List, [], ◌∷◌, map, reverse, Text,
  leb, nat_eq, any, if◌then◌else◌, drop_while, is_space, starts_with, strip, is_empty,
}
use homeinfra_control_center.Ids.{is_digit}

-- The boundaries of `str.splitlines`.
unfoldable pub is_line_break : ℕ → Bool
is_line_break c =
    leb 10 c && leb c 13 || leb 28 c && leb c 30 || nat_eq c 133 || nat_eq c 8232 || nat_eq c 8233

-- A character in front of the first of the parts that the rest was split into.
abbrev pub push : ℕ → List Text → List Text
push c [] = (c ∷ []) ∷ []
push c (part ∷ parts) = (c ∷ part) ∷ parts

-- The flag says that the character before was a carriage return, which makes one boundary with
-- the line feed behind it.
unfoldable pub split_lines : Bool → Text → List Text
unfolding is_line_break
split_lines after_return [] = []
split_lines after_return (c ∷ s) =
    let rest = split_lines (nat_eq c 13) s in
    if after_return && nat_eq c 10 then rest else if is_line_break c then [] ∷ rest else push c rest

-- `s.splitlines()`
unfoldable pub splitlines : Text → List Text
unfolding split_lines
splitlines = split_lines false

-- The next character belongs to the word of the one before.
unfoldable pub begins_word : Text → Bool
unfolding is_space
begins_word [] = false
begins_word (c ∷ s) = not (is_space c)

-- `s.split()`
unfoldable pub split : Text → List Text
unfolding is_space begins_word
split [] = []
split (c ∷ s) =
    let rest = split s in
    if is_space c then rest else if begins_word s then push c rest else (c ∷ []) ∷ rest

-- `s.split(sep)` for a separator of one character.
unfoldable pub split_on : ℕ → Text → List Text
split_on sep [] = [] ∷ []
split_on sep (c ∷ s) = let rest = split_on sep s in if nat_eq c sep then [] ∷ rest else push c rest

-- `s.partition(sep)[0]`, the text in front of the first separator.
unfoldable pub before_first : ℕ → Text → Text
before_first sep [] = []
before_first sep (c ∷ s) = if nat_eq c sep then [] else c ∷ before_first sep s

-- `s.split(sep, 1)[1]`; `none` is its IndexError.
unfoldable pub after_first : ℕ → Text → Option Text
after_first sep [] = none
after_first sep (c ∷ s) = if nat_eq c sep then some s else after_first sep s

-- `sep in s`
abbrev pub has_char : ℕ → Text → Bool
has_char sep = any (λ c. nat_eq c sep)

abbrev pub drop : ℕ → Text → Text
drop n [] = []
drop zero (c ∷ s) = c ∷ s
drop (suc n) (c ∷ s) = drop n s

abbrev pub text_length : Text → ℕ
text_length [] = 0
text_length (c ∷ s) = suc (text_length s)

-- The text behind the first occurrence of a token, with `none` where there is none.
unfoldable pub after_token : Text → Text → Option Text
unfolding starts_with
after_token token [] = none
after_token token (c ∷ s) =
    if starts_with token (c ∷ s)
    then some (drop (text_length token) (c ∷ s))
    else after_token token s

-- `s.split(token)[0]`
unfoldable pub before_token : Text → Text → Text
unfolding starts_with
before_token token [] = []
before_token token (c ∷ s) = if starts_with token (c ∷ s) then [] else c ∷ before_token token s

-- `s.split(token)[-1]`, for a token that does not overlap itself.
unfoldable pub after_last_token : Text → Text → Text
unfolding after_token
after_last_token token [] = []
after_last_token token (c ∷ s) = elim (after_token token s) [
  | some t ↦ after_last_token token s
  | none ↦ elim (after_token token (c ∷ s)) [ some t ↦ t | none ↦ c ∷ s ]
]

-- `s.count(token)`, for a token that does not overlap itself.
unfoldable pub occurrences : Text → Text → ℕ
unfolding starts_with
occurrences token [] = 0
occurrences token (c ∷ s) =
    let rest = occurrences token s in if starts_with token (c ∷ s) then suc rest else rest

-- `s.rstrip(chars)`
abbrev pub strip_right : (ℕ → Bool) → Text → Text
strip_right p s = reverse (drop_while p (reverse s))

-- `s.endswith(suffix)`
unfoldable pub ends_with : Text → Text → Bool
unfolding starts_with
ends_with suffix s = starts_with (reverse suffix) (reverse s)

-- `s.isdigit()`, on ASCII text.
unfoldable pub is_number_text : Text → Bool
unfolding is_digit
is_number_text [] = false
is_number_text (c ∷ s) = is_digit c && (is_empty s || is_number_text s)

-- `s.startswith((p, q, ...))`
abbrev pub starts_with_any : List Text → Text → Bool
starts_with_any prefixes s = any (λ p. starts_with p s) prefixes

-- `xs[i]`; `none` is the IndexError.
abbrev pub item {ℓ} : {A : Type ℓ} → ℕ → List A → Option A
item n [] = none
item zero (x ∷ xs) = some x
item (suc n) (x ∷ xs) = item n xs

-- `xs[n:]`
abbrev pub items_from {ℓ} : {A : Type ℓ} → ℕ → List A → List A
items_from zero xs = xs
items_from (suc n) [] = []
items_from (suc n) (x ∷ xs) = items_from n xs

-- The lines of a command's output, each stripped: `for line in text.strip().splitlines()` with
-- `line = line.strip()`.
unfoldable pub stripped_lines : Text → List Text
unfolding strip splitlines
stripped_lines text = map strip (splitlines (strip text))
