-- ===== src/Prelude/Lists.antt =====
-- Lists over the native numbers: lengths, counts, and the list operations of the source, which
-- are comprehensions, `insert(0, x)`, slices, and changes made to the one item that a loop finds.
use Prim.Native.Nat.{ℕ, zero, suc}
use mathlib.Core.Bool.{Bool, false, ◌||◌}
use mathlib.Core.List.{List, [], ◌∷◌}
use mathlib.Core.Option.{Option, none, some}
use homeinfra_control_center.Prelude.Tests.{if◌then◌else◌}

module _ {ℓ} {A : Type ℓ} where
  abbrev pub length : List A → ℕ
  length [] = 0
  length (x ∷ xs) = suc (length xs)

  -- `xs[:n]`
  abbrev pub take : ℕ → List A → List A
  take zero xs = []
  take (suc n) [] = []
  take (suc n) (x ∷ xs) = x ∷ take n xs

  -- `[x for x in xs if p(x)]`
  abbrev pub keep : (A → Bool) → List A → List A
  keep p [] = []
  keep p (x ∷ xs) = if p x then x ∷ keep p xs else keep p xs

  -- `sum(1 for x in xs if p(x))`
  abbrev pub count : (A → Bool) → List A → ℕ
  count p [] = 0
  count p (x ∷ xs) = if p x then suc (count p xs) else count p xs

  -- `any(p(x) for x in xs)`
  abbrev pub any : (A → Bool) → List A → Bool
  any p [] = false
  any p (x ∷ xs) = p x || any p xs

  -- `for x in xs: if p(x): return x`
  abbrev pub find : (A → Bool) → List A → Option A
  find p [] = none
  find p (x ∷ xs) = if p x then some x else find p xs

  -- The list after the item that `find p` returns has been changed in place by `f`.
  abbrev pub change_first : (A → Bool) → (A → A) → List A → List A
  change_first p f [] = []
  change_first p f (x ∷ xs) = if p x then f x ∷ xs else x ∷ change_first p f xs

  abbrev pub All {κ} : (A → Type κ) → List A → Type κ
  All P [] = Unit
  All P (x ∷ xs) = P x × All P xs

  -- A stable insertion sort, for `list.sort(key=...)`; `before x y` says that `x` may stay in
  -- front of `y`.
  abbrev pub insert_sorted : (A → A → Bool) → A → List A → List A
  insert_sorted before x [] = x ∷ []
  insert_sorted before x (y ∷ ys) = if before x y then x ∷ y ∷ ys else y ∷ insert_sorted before x ys

  abbrev pub sort : (A → A → Bool) → List A → List A
  sort before [] = []
  sort before (x ∷ xs) = insert_sorted before x (sort before xs)
