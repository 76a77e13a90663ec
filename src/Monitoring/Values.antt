-- ===== src/Monitoring/Values.antt =====
-- What homeinfra/monitoring.py asks of the values of a payload: orders on numbers, truth, the
-- items of a list. A value of another type raises a TypeError or an AttributeError.
use homeinfra_control_center.Prelude.{
  ℕ, zero, suc, ◌+◌, ◌*◌, Bool, true, false, not, List, [], ◌∷◌, ◌++◌, Text, is_empty, nat_eq,
}
use homeinfra_control_center.Prelude.Int.{ℤ, pos, negsuc, ltb_ℤ}
use homeinfra_control_center.Errors.{Result, ok, err, type_error}
use homeinfra_control_center.Errors.Checked.{◌>>=◌}
use homeinfra_control_center.Model.Json.{
  Value, null, bool, int, dec, str, arr, obj, Items, nil, cons, Fields, end, field,
}
use homeinfra_control_center.Model.State.{Message}

-- An entry of the lists of `evaluate_threshold_alerts`, and the answer of `evaluate_smart_alert`.
pub record Check : Type 0 where
  pub severity : Text
  pub type : Text
  pub title : Message
  pub message : Message

abbrev pub power_of_ten : ℕ → ℕ
power_of_ten zero = 1
power_of_ten (suc k) = 10 * power_of_ten k

abbrev pub times_ℤ : ℕ → ℤ → ℤ
times_ℤ k (pos n) = pos (k * n)
times_ℤ zero (negsuc n) = pos 0
times_ℤ (suc k) (negsuc n) = negsuc (k * suc n + n)

-- A number as numerator and power of ten; a Boolean is a number in Python.
abbrev pub number : Value → Result (ℤ × ℕ)
number (bool true) = ok (pos 1, 1)
number (bool false) = ok (pos 0, 1)
number (int z) = ok (z, 1)
number (dec m k) = ok (m, power_of_ten k)
number _ = err type_error

abbrev pub larger : ℤ × ℕ → ℤ × ℕ → Bool
larger (a, p) (b, q) = ltb_ℤ (times_ℤ p b) (times_ℤ q a)

-- `v > w`, of two numbers.
unfoldable pub gt : Value → Value → Result Bool
gt v w = do a ← number v; b ← number w; ok (larger a b)

-- `v > bound`
unfoldable pub exceeds : Value → ℕ → Result Bool
unfolding gt
exceeds v bound = gt v (int (pos bound))

-- `isinstance(v, (int, float))`
unfoldable pub is_number : Value → Bool
is_number v = elim (number v) [ ok n ↦ true | err e ↦ false ]

abbrev pub is_zero : ℤ → Bool
is_zero (pos n) = nat_eq n 0
is_zero (negsuc n) = false

-- `bool(v)`
unfoldable pub truthy : Value → Bool
truthy null = false
truthy (bool b) = b
truthy (int z) = not (is_zero z)
truthy (dec m k) = not (is_zero m)
truthy (str s) = not (is_empty s)
truthy (arr nil) = false
truthy (arr (cons v vs)) = true
truthy (obj end) = false
truthy (obj (field k v fs)) = true

unfoldable pub is_hashable : Value → Bool
is_hashable (arr vs) = false
is_hashable (obj fs) = false
is_hashable _ = true

-- The dictionaries of a list, each of which `.get` is called on.
unfoldable pub dictionaries_of : Items → Result (List Fields)
dictionaries_of nil = ok []
dictionaries_of (cons (obj fs) vs) = do rest ← dictionaries_of vs; ok (fs ∷ rest)
dictionaries_of (cons _ vs) = err type_error

-- `for item in v`, given that the body calls `item.get`.
unfoldable pub dictionaries : Value → Result (List Fields)
unfolding dictionaries_of
dictionaries (arr vs) = dictionaries_of vs
dictionaries (str []) = ok []
dictionaries (obj end) = ok []
dictionaries _ = err type_error

-- The checks that a loop collects.
abbrev pub collect {ℓ} : {A : Type ℓ} → (A → Result (List Check)) → List A → Result (List Check)
collect f [] = ok []
collect f (x ∷ xs) = do checks ← f x; rest ← collect f xs; ok (checks ++ rest)
