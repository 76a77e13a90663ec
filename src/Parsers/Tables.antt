-- ===== src/Parsers/Tables.antt =====
-- Dictionaries, and the loops of homeinfra/parsers.py that skip the lines they cannot read.
use homeinfra_control_center.Prelude.{
  Bool, true, false, ◌≡◌, refl, All, Option, none, some, subst, List, [], ◌∷◌, String, Text, txt,
  is_empty,
}
use homeinfra_control_center.Model.Json.{Value, Fields, end, field}

-- `{key: value, ...}`
abbrev pub dict : List (String × Value) → Fields
dict [] = end
dict ((key, value) ∷ entries) = field (txt key) value (dict entries)

-- `items if items else None`
abbrev pub or_none {ℓ} : {A : Type ℓ} → List A → Option (List A)
or_none [] = none
or_none (x ∷ xs) = some (x ∷ xs)

-- `s or None`
abbrev pub text_or_none : Text → Option Text
text_or_none [] = none
text_or_none (c ∷ s) = some (c ∷ s)

-- `items.append(y)` where there is something to append.
abbrev pub appended {ℓ} : {A : Type ℓ} → Option A → List A → List A
appended none ys = ys
appended (some y) ys = y ∷ ys

-- A loop that appends what its body reads, and continues where the body reads nothing.
abbrev pub read_each {ℓ κ} : {A : Type ℓ} {B : Type κ} → (A → Option B) → List A → List B
read_each f [] = []
read_each f (x ∷ xs) = appended (f x) (read_each f xs)

-- `[f(x) for x in xs]` where `f` may raise.
abbrev pub all_of {ℓ κ} : {A : Type ℓ} {B : Type κ} → (A → Option B) → List A → Option (List B)
all_of f [] = some []
all_of f (x ∷ xs) = elim (f x) [
  | none ↦ none
  | some y ↦ elim (all_of f xs) [ none ↦ none | some ys ↦ some (y ∷ ys) ]
]

infixl 5 ◌>>=◌
abbrev pub ◌>>=◌ {ℓ κ} : {A : Type ℓ} {B : Type κ} → Option A → (A → Option B) → Option B
none >>= f = none
(some a) >>= f = f a

-- `if test: continue`
abbrev pub unless {ℓ} : {A : Type ℓ} → Bool → Option A → Option A
unless true r = none
unless false r = r

-- `if not text: return None`
abbrev pub given {ℓ} : {A : Type ℓ} → Text → Option A → Option A
given text r = unless (is_empty text) r

pub or_none-some {ℓ} : {A : Type ℓ} (ys : List A) {zs : List A} → or_none ys ≡ some zs → ys ≡ zs
or_none-some [] e = cc
or_none-some (y ∷ ys) e = cc

module _ {ℓ κ} {B : Type ℓ} (P : B → Type κ) where
  pub All-appended :
      (o : Option B) (ys : List B) → ((y : B) → o ≡ some y → P y) → All P ys → All P (appended o ys)
  All-appended none ys h rest = rest
  All-appended (some y) ys h rest = (h y refl, rest)

  -- What holds of everything that the body reads holds of the list.
  pub All-read_each {μ} :
      {A : Type μ} (f : A → Option B) (xs : List A)
      → ((x : A) (y : B) → f x ≡ some y → P y)
      → All P (read_each f xs)
  All-read_each f [] h = tt
  All-read_each f (x ∷ xs) h = All-appended (f x) (read_each f xs) (h x) (All-read_each f xs h)

  pub All-or_none : (ys : List B) {zs : List B} → or_none ys ≡ some zs → All P ys → All P zs
  All-or_none [] e h = cc
  All-or_none (y ∷ ys) {zs} e h = let same : y ∷ ys ≡ zs = cc in subst (All P) same h
