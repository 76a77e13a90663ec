-- ===== src/Model/Json.antt =====
-- The values of a request body or of a collection payload, as `json.loads` makes them.
use homeinfra_control_center.Prelude.{
  ℕ, Bool, true, false, Option, none, some, Text, ◌==◌, if◌then◌else◌,
}
use homeinfra_control_center.Prelude.Int.{ℤ}

-- `dec m k` is the number m / 10^k, written with a fraction or an exponent; Python reads it as a
-- float, and only its order with whole numbers is modelled.
mutual
  pub data Value : Type 0 where
    null : Value
    bool : Bool → Value
    int : ℤ → Value
    dec : ℤ → ℕ → Value
    str : Text → Value
    arr : Items → Value
    obj : Fields → Value

  pub data Items : Type 0 where
    nil : Items
    cons : Value → Items → Items

  pub data Fields : Type 0 where
    end : Fields
    field : Text → Value → Fields → Fields

-- `d.get(key)` with `none` for a missing key.
unfoldable pub lookup : Text → Fields → Option Value
lookup key end = none
lookup key (field k v fs) = if key == k then some v else lookup key fs

-- `d.get(key, default)`
unfoldable pub get_or : Value → Text → Fields → Value
unfolding lookup
get_or default key fs = elim (lookup key fs) [ none ↦ default | some v ↦ v ]

-- `d.get(key)`, which is None for a missing key.
unfoldable pub get : Text → Fields → Value
unfolding get_or
get = get_or null

-- `key in d`
unfoldable pub has : Text → Fields → Bool
unfolding lookup
has key fs = elim (lookup key fs) [ none ↦ false | some v ↦ true ]

-- `d[key] = value`
unfoldable pub set : Text → Value → Fields → Fields
set key value end = field key value end
set key value (field k v fs) = if key == k then field k value fs else field k v (set key value fs)
