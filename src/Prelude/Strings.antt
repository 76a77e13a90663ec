-- ===== src/Prelude/Strings.antt =====
-- Text as Python's `str` is walked: a list of code points. Case is folded on the ASCII letters.
use Prim.Native.Nat.{ℕ, ◌+◌, ◌-◌}
use Prim.Native.Char.{code}
use Prim.Native.String.{String}
use mathlib.Core.Path.{◌≡◌, refl}
use mathlib.Core.Logic.{◌↔◌}
use mathlib.Core.Bool.{Bool, true, false, ◌&&◌, ◌||◌}
use mathlib.Core.List.{List, [], ◌∷◌, map, reverse}
use native.Mathlib.Omega.{arith}
use homeinfra_control_center.Prelude.Tests.{if◌then◌else◌, leb, ltb, nat_eq}
use homeinfra_control_center.Prelude.Lists.{any}

abbrev pub Text : Type 0
Text = List ℕ

-- A literal.
abbrev pub txt : String → Text
txt String.[] = []
txt (String.◌∷◌ c s) = code c ∷ txt s

infix 50 ◌==◌
unfoldable pub ◌==◌ : Text → Text → Bool
[] == [] = true
[] == (d ∷ t) = false
(c ∷ s) == [] = false
(c ∷ s) == (d ∷ t) = nat_eq c d && s == t

pub ==_iff : (s t : Text) → ((s == t) ≡ true) ↔ (s ≡ t)
unfolding ◌==◌
==_iff [] [] = (λ _. refl, λ _. refl)
==_iff [] (d ∷ t) = (λ h. cc, λ h. cc)
==_iff (c ∷ s) [] = (λ h. cc, λ h. cc)
==_iff (c ∷ s) (d ∷ t) = let ih = ==_iff s t in (λ h. ground (arith, ih), λ h. ground (arith, ih))

pub ==_refl : (s : Text) → (s == s) ≡ true
==_refl s = (==_iff s s).1 refl

-- `x in [...]` for texts.
abbrev pub mem : Text → List Text → Bool
mem s = any (λ t. s == t)

-- The characters for which `str.isspace` holds.
unfoldable pub is_space : ℕ → Bool
is_space c =
    leb 9 c && leb c 13
    || leb 28 c && leb c 32
    || nat_eq c 133
    || nat_eq c 160
    || nat_eq c 5760
    || leb 8192 c && leb c 8202
    || nat_eq c 8232
    || nat_eq c 8233
    || nat_eq c 8239
    || nat_eq c 8287
    || nat_eq c 12288

abbrev pub drop_while : (ℕ → Bool) → Text → Text
drop_while p [] = []
drop_while p (c ∷ s) = if p c then drop_while p s else c ∷ s

-- `s.strip()`
unfoldable pub strip : Text → Text
unfolding is_space
strip s = reverse (drop_while is_space (reverse (drop_while is_space s)))

unfoldable pub lower_char : ℕ → ℕ
lower_char c = if leb b'A' c && leb c b'Z' then c + 32 else c

-- `s.lower()` and `s.casefold()`, on ASCII text.
unfoldable pub lower : Text → Text
unfolding lower_char
lower s = map lower_char s

unfoldable pub upper_char : ℕ → ℕ
upper_char c = if leb b'a' c && leb c b'z' then c - 32 else c

-- `s.upper()`, on ASCII text.
unfoldable pub upper : Text → Text
unfolding upper_char
upper s = map upper_char s

-- `s.startswith(prefix)`
unfoldable pub starts_with : Text → Text → Bool
starts_with [] s = true
starts_with (c ∷ p) [] = false
starts_with (c ∷ p) (d ∷ s) = nat_eq c d && starts_with p s

-- `token in s`
unfoldable pub contains : Text → Text → Bool
unfolding starts_with
contains token [] = starts_with token []
contains token (c ∷ s) = starts_with token (c ∷ s) || contains token s

-- `s or default`
abbrev pub or_else : Text → Text → Text
or_else [] d = d
or_else (c ∷ s) d = c ∷ s

abbrev pub is_empty : Text → Bool
is_empty [] = true
is_empty (c ∷ s) = false

-- `s <= t`, by code points.
unfoldable pub text_le : Text → Text → Bool
text_le [] t = true
text_le (c ∷ s) [] = false
text_le (c ∷ s) (d ∷ t) = ltb c d || nat_eq c d && text_le s t
