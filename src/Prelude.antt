-- ===== src/Prelude.antt =====
-- The names that the other modules share: the libraries' names, passed on, and those of the
-- children, which hold Boolean tests, list operations, counting lemmas and text.
mod Tests
mod Lists
pub mod Int
pub mod Counting
mod Strings
pub use Tests.*
pub use Lists.*
unfoldable pub use Strings.{
  ◌==◌, is_space, strip, lower_char, lower, upper_char, upper, starts_with, contains, text_le,
}
pub use Strings.{Text, txt, ==_iff, ==_refl, mem, drop_while, or_else, is_empty}
pub use Prim.Native.Nat.{ℕ, zero, suc, ◌+◌, ◌-◌, ◌*◌, ◌/◌, ◌%◌, ◌≤◌, ◌<◌, max, min}
pub use Prim.Native.String.{String}
pub use mathlib.Core.Path.{◌≡◌, refl, sym, ap, ◌∙◌, subst}
pub use mathlib.Core.Logic.{◌≢◌, ◌↔◌, ◌⊎◌, inl, inr}
pub use mathlib.Core.Bool.{Bool, true, false, ◌&&◌, ◌||◌, not}
pub use mathlib.Core.Option.{Option, none, some, some-injective}
pub use mathlib.Core.List.{List, [], ◌∷◌, ◌++◌, map, reverse}
pub use native.Mathlib.Omega.{arith}
