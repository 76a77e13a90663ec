-- ===== src/Errors.antt =====
-- homeinfra/errors.py: the exceptions that reach the HTTP layer, and the Python and SQLite errors that
-- the modelled code can also raise. A message is the source's text, its f-string holes left
-- open as `{}`.
pub mod Checked
use homeinfra_control_center.Prelude.{ℕ, ◌≡◌, refl, ◌⊎◌, inl, inr, String, Text}

-- The subclasses of `ApiError`; `rate_limited` carries `retry_after_seconds`.
pub data Error : Type 0 where
  auth_required forbidden conflict validation_error : String → Error
  not_found : (resource : String) → (identifier : Text) → Error
  rate_limited : (retry_after_seconds : ℕ) → Error
  confirmation_required : (action : Text) → Error
  payload_too_large : (received : ℕ) → Error
  key_error type_error index_error integrity_error : Error

-- `HTTPStatus`, the third argument of the base class.
unfoldable pub status : Error → ℕ
status (auth_required m) = 401
status (forbidden m) = 403
status (conflict m) = 409
status (validation_error m) = 422
status (not_found r i) = 404
status (rate_limited s) = 429
status (confirmation_required a) = 428
status (payload_too_large n) = 413
status key_error = 500
status type_error = 500
status index_error = 500
status integrity_error = 500

pub data Result (A : Type 0) : Type 0 where
  ok : A → Result A
  err : Error → Result A

pub Result-cases :
    {A : Type 0} (r : Result A) → ((e : Error) × (r ≡ err e)) ⊎ ((a : A) × (r ≡ ok a))
Result-cases (ok a) = inr (a, refl)
Result-cases (err e) = inl (e, refl)
