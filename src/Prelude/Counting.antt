-- ===== src/Prelude/Counting.antt =====
-- Lemmas on counts, on `All`, and on the list operations that the components share.
use Prim.Native.Nat.{ℕ, zero, suc, ◌+◌, ◌≤◌}
use mathlib.Core.Path.{◌≡◌, refl, subst}
use mathlib.Core.Bool.{Bool, true, false}
use mathlib.Core.List.{List, [], ◌∷◌, ◌++◌, map}
use mathlib.Core.Option.{none, some}
use native.Mathlib.Omega.{arith}
use homeinfra_control_center.Prelude.Tests.{Bool-cases}
use mathlib.Core.Logic.{inl, inr}
use homeinfra_control_center.Prelude.Lists.{
  length, take, keep, count, any, find, change_first, All, insert_sorted, sort,
}

-- What a Boolean contributes to a count.
abbrev pub bit : Bool → ℕ
bit true = 1
bit false = 0

module _ {ℓ} {A : Type ℓ} (p : A → Bool) where
  pub count-append : (xs ys : List A) → count p (xs ++ ys) ≡ count p xs + count p ys
  count-append [] ys = omega arith
  count-append (x ∷ xs) ys = ground (arith, count-append xs ys)

  pub count-take : (n : ℕ) (xs : List A) → count p (take n xs) ≤ count p xs
  count-take zero xs = omega arith
  count-take (suc n) [] = omega arith
  count-take (suc n) (x ∷ xs) = ground (arith, count-take n xs)

  pub count-keep : (q : A → Bool) (xs : List A) → count p (keep q xs) ≤ count p xs
  count-keep q [] = omega arith
  count-keep q (x ∷ xs) = ground (arith, count-keep q xs)

  -- Changing the item that was found moves its contribution.
  pub count-change_first :
      (q : A → Bool) (f : A → A) {u : A} (xs : List A)
      → find q xs ≡ some u
      → count p (change_first q f xs) + bit (p u) ≡ count p xs + bit (p (f u))
  count-change_first q f [] e = cc
  count-change_first q f {u} (x ∷ xs) e = ground (arith, count-change_first q f {u = u} xs)

  pub count-insert_sorted :
      (before : A → A → Bool) (x : A) (xs : List A)
      → count p (insert_sorted before x xs) ≡ bit (p x) + count p xs
  count-insert_sorted before x [] = ground arith
  count-insert_sorted before x (y ∷ ys) = ground (arith, count-insert_sorted before x ys)

  pub count-sort : (before : A → A → Bool) (xs : List A) → count p (sort before xs) ≡ count p xs
  count-sort before [] = refl
  count-sort before (x ∷ xs) =
      ground (arith, count-insert_sorted before x (sort before xs), count-sort before xs)

  pub any-eq_false : (xs : List A) → any p xs ≡ false → count p xs ≡ 0
  any-eq_false [] h = refl
  any-eq_false (x ∷ xs) h = ground (arith, any-eq_false xs)

  pub find-holds : {u : A} (xs : List A) → find p xs ≡ some u → p u ≡ true
  find-holds [] e = cc
  find-holds {u} (x ∷ xs) e = ground (arith, find-holds {u = u} xs)

  pub find-none : (xs : List A) → find p xs ≡ none → count p xs ≡ 0
  find-none [] e = refl
  find-none (x ∷ xs) e = ground (arith, find-none xs)

  pub count-find :
      {u : A} (q : A → Bool) (xs : List A) → find q xs ≡ some u → bit (p u) ≤ count p xs
  count-find q [] e = cc
  count-find {u} q (x ∷ xs) e = ground (arith, count-find {u = u} q xs)

module _ {ℓ} {A : Type ℓ} where
  pub length-take : (n : ℕ) (xs : List A) → length (take n xs) ≤ n
  length-take zero xs = omega arith
  length-take (suc n) [] = omega arith
  length-take (suc n) (x ∷ xs) = omega (arith, length-take n xs)

  pub length-keep : (q : A → Bool) (xs : List A) → length (keep q xs) ≤ length xs
  length-keep q [] = omega arith
  length-keep q (x ∷ xs) = ground (arith, length-keep q xs)

  pub length-change_first :
      (q : A → Bool) (f : A → A) (xs : List A) → length (change_first q f xs) ≡ length xs
  length-change_first q f [] = refl
  length-change_first q f (x ∷ xs) = ground (arith, length-change_first q f xs)

module _ {ℓ κ} {A : Type ℓ} (P : A → Type κ) where
  pub All-take : (n : ℕ) (xs : List A) → All P xs → All P (take n xs)
  All-take zero xs h = tt
  All-take (suc n) [] h = tt
  All-take (suc n) (x ∷ xs) h = (h.0, All-take n xs h.1)

  pub All-append : (xs ys : List A) → All P xs → All P ys → All P (xs ++ ys)
  All-append [] ys h k = k
  All-append (x ∷ xs) ys h k = (h.0, All-append xs ys h.1 k)

  pub All-keep : (q : A → Bool) (xs : List A) → All P xs → All P (keep q xs)
  All-keep q [] h = tt
  All-keep q (x ∷ xs) h = elim (Bool-cases (q x)) [
    | inl kept ↦ rw kept (h.0, All-keep q xs h.1)
    | inr dropped ↦ rw dropped (All-keep q xs h.1)
  ]

  pub All-find : (q : A → Bool) {u : A} (xs : List A) → All P xs → find q xs ≡ some u → P u
  All-find q [] h e = cc
  All-find q {u} (x ∷ xs) h e = elim (Bool-cases (q x)) [
    | inl found ↦ let same : x ≡ u = ground arith in subst P same h.0
    | inr other ↦ All-find q xs h.1 (rw other at e)
  ]

  pub All-change_first :
      (q : A → Bool) (f : A → A) (xs : List A)
      → ((x : A) → P x → q x ≡ true → P (f x))
      → All P xs
      → All P (change_first q f xs)
  All-change_first q f [] g h = tt
  All-change_first q f (x ∷ xs) g h = elim (Bool-cases (q x)) [
    | inl found ↦ rw found (g x h.0 found, h.1)
    | inr other ↦ rw other (h.0, All-change_first q f xs g h.1)
  ]

  pub All-insert_sorted :
      (before : A → A → Bool) (x : A) (xs : List A)
      → P x
      → All P xs
      → All P (insert_sorted before x xs)
  All-insert_sorted before x [] px h = (px, tt)
  All-insert_sorted before x (y ∷ ys) px h = elim (Bool-cases (before x y)) [
    | inl first ↦ rw first (px, h)
    | inr later ↦ rw later (h.0, All-insert_sorted before x ys px h.1)
  ]

  pub All-sort : (before : A → A → Bool) (xs : List A) → All P xs → All P (sort before xs)
  All-sort before [] h = tt
  All-sort before (x ∷ xs) h =
      All-insert_sorted before x (sort before xs) h.0 (All-sort before xs h.1)

module _ {ℓ} {A : Type ℓ} (p : A → Bool) where
  -- A change that the test does not see leaves the count.
  pub count-change_first_same :
      (q : A → Bool) (f : A → A) (xs : List A)
      → ((x : A) → p (f x) ≡ p x)
      → count p (change_first q f xs) ≡ count p xs
  count-change_first_same q f [] h = refl
  count-change_first_same q f (x ∷ xs) h = ground (arith, h x, count-change_first_same q f xs h)

  -- Nor does one of an item that the test is false of, before and after.
  pub count-change_first_other :
      (q : A → Bool) (f : A → A) (xs : List A)
      → ((x : A) → q x ≡ true → p (f x) ≡ p x)
      → count p (change_first q f xs) ≡ count p xs
  count-change_first_other q f [] h = refl
  count-change_first_other q f (x ∷ xs) h = ground (arith, h x, count-change_first_other q f xs h)

  pub count-map {κ} :
      {B : Type κ} (f : B → A) (xs : List B) → count p (map f xs) ≡ count (λ x. p (f x)) xs
  count-map f [] = refl
  count-map f (x ∷ xs) = ground (arith, count-map f xs)

  pub count_weaken :
      (q : A → Bool) (xs : List A) → ((x : A) → p x ≡ true → q x ≡ true) → count p xs ≤ count q xs
  count_weaken q [] h = omega arith
  count_weaken q (x ∷ xs) h = ground (arith, h x, count_weaken q xs h)

module _ {ℓ κ μ} {A : Type ℓ} (P : A → Type κ) (Q : A → Type μ) where
  pub All-weaken : (xs : List A) → ((x : A) → P x → Q x) → All P xs → All Q xs
  All-weaken [] f h = tt
  All-weaken (x ∷ xs) f h = (f x h.0, All-weaken xs f h.1)

  -- On what a filter keeps, its test holds.
  pub All-keep_with :
      (q : A → Bool) (xs : List A)
      → ((x : A) → P x → q x ≡ true → Q x)
      → All P xs
      → All Q (keep q xs)
  All-keep_with q [] f h = tt
  All-keep_with q (x ∷ xs) f h = elim (Bool-cases (q x)) [
    | inl kept ↦ rw kept (f x h.0 kept, All-keep_with q xs f h.1)
    | inr dropped ↦ rw dropped (All-keep_with q xs f h.1)
  ]

module _ {ℓ} {A : Type ℓ} (p : A → Bool) where
  pub count_le_length : (xs : List A) → count p xs ≤ length xs
  count_le_length [] = omega arith
  count_le_length (x ∷ xs) = ground (arith, count_le_length xs)

module _ {ℓ} {A : Type ℓ} (p q : A → Bool) where
  -- A filter whose test follows from the counted one drops nothing of the count.
  pub count-keep_same :
      (xs : List A) → ((x : A) → p x ≡ true → q x ≡ true) → count p (keep q xs) ≡ count p xs
  count-keep_same [] h = refl
  count-keep_same (x ∷ xs) h = ground (arith, h x, count-keep_same xs h)

  -- A filter whose test excludes the counted one drops all of it.
  pub count-keep_none :
      (xs : List A) → ((x : A) → p x ≡ true → q x ≡ false) → count p (keep q xs) ≡ 0
  count-keep_none [] h = refl
  count-keep_none (x ∷ xs) h = ground (arith, h x, count-keep_none xs h)

-- The list with one item changed: what stands before it fails the test, and the rest is as it was.
pub record OneChanged {ℓ} {A : Type ℓ} (p : A → Bool) (x y : A) (xs ys : List A) : Type ℓ where
  pub front : List A
  pub back : List A
  pub first : count p front ≡ 0
  pub was : xs ≡ front ++ (x ∷ back)
  pub becomes : ys ≡ front ++ (y ∷ back)

pub change_first-OneChanged {ℓ} :
    {A : Type ℓ} (p : A → Bool) (f : A → A) {x : A} (xs : List A)
    → find p xs ≡ some x
    → OneChanged p x (f x) xs (change_first p f xs)
change_first-OneChanged p f [] h = cc
change_first-OneChanged p f {x} (z ∷ xs) h = elim (Bool-cases (p z)) [
  | inl here ↦ record {
    front = [];
    back = xs;
    first = refl;
    was = ground arith;
    becomes = ground arith;
  }
  | inr other ↦
      let c = change_first-OneChanged p f {x = x} xs (ground arith) in
      record {
        front = z ∷ c.front;
        back = c.back;
        first = ground (arith, c.first);
        was = ground (arith, c.was);
        becomes = ground (arith, c.becomes);
      }
]
