-- ===== src/App/Requests/Bounds.antt =====
-- The bounds of the numbers that come with a request.
use homeinfra_control_center.Prelude.{ℕ, ◌≤◌, ◌≡◌, arith, Option, none, some, Text, txt}
use homeinfra_control_center.Prelude.Int.{ℤ, pos, negsuc}
use homeinfra_control_center.Errors.{ok}
use homeinfra_control_center.Model.Json.{Fields, get}
use homeinfra_control_center.App.Requests.{
  UrlQuery, parse_limit, checked_timeout, timeout_value, int_of, parse_timeout,
}

-- A limit that was accepted is one that a page may have.
pub parse_limit_bounds :
    (raw : Option Text) (maximum : ℕ) {limit : ℕ}
    → 1 ≤ maximum
    → parse_limit raw maximum ≡ ok limit
    → (1 ≤ limit) × (limit ≤ maximum)
unfolding parse_limit
parse_limit_bounds none maximum positive e = ground arith
parse_limit_bounds (some raw) maximum positive e = ground arith

checked_timeout_bounds :
    (raw : Option ℤ) {timeout : ℕ}
    → checked_timeout raw ≡ ok timeout
    → (1 ≤ timeout) × (timeout ≤ 30)
unfolding checked_timeout
checked_timeout_bounds none e = cc
checked_timeout_bounds (some (pos n)) e = ground arith
checked_timeout_bounds (some (negsuc n)) e = ground arith

pub parse_timeout_bounds :
    (body : Fields) (query : UrlQuery) {timeout : ℕ}
    → parse_timeout body query ≡ ok timeout
    → (1 ≤ timeout) × (timeout ≤ 30)
unfolding parse_timeout
parse_timeout_bounds body query e =
    checked_timeout_bounds (int_of (timeout_value (get (txt "timeout") body) query)) e
