-- ===== src/Auth/Validation.antt =====
-- The constants of homeinfra/auth.py and the three `_normalize_…` methods.
use homeinfra_control_center.Prelude.{
  ℕ, Bool, ◌&&◌, ◌||◌, not, Option, none, some, Text, txt, strip, lower, leb, ltb, nat_eq, length,
  any, is_empty, if◌then◌else◌, ◌==◌,
}
use homeinfra_control_center.Errors.{Result, ok, err, validation_error}
use homeinfra_control_center.Model.Json.{Value, str}

abbrev pub password_iterations : ℕ
password_iterations = 240_000

abbrev pub password_min_length : ℕ
password_min_length = 8

-- `ROLE_LEVELS`; `none` is a KeyError.
unfoldable pub role_level : Text → Option ℕ
role_level role =
    if role == txt "viewer"
    then some 1
    else if role == txt "auditor"
    then some 2
    else if role == txt "operator"
    then some 3
    else if role == txt "admin"
    then some 4
    else none

-- The character class of `USERNAME_PATTERN`.
unfoldable pub is_username_char : ℕ → Bool
is_username_char c =
    leb b'A' c && leb c b'Z'
    || leb b'a' c && leb c b'z'
    || leb b'0' c && leb c b'9'
    || nat_eq c b'_'
    || nat_eq c b'.'
    || nat_eq c b'@'
    || nat_eq c b'-'

-- `USERNAME_PATTERN.match`, on a text that does not end in a line break.
unfoldable pub matches_username : Text → Bool
unfolding is_username_char
matches_username s =
    not (any (λ c. not (is_username_char c)) s) && leb 3 (length s) && leb (length s) 64

unfoldable pub normalize_username : Value → Result Text
unfolding matches_username strip
normalize_username (str value) =
    let username = strip value in
    if is_empty username
    then err (validation_error "username 必须是非空字符串")
    else if matches_username username
    then ok username
    else err (validation_error "username 仅支持 3-64 位字母、数字、点、下划线、@、-")
normalize_username _ = err (validation_error "username 必须是非空字符串")

unfoldable pub normalize_password : Value → Result Text
normalize_password (str value) =
    if is_empty value
    then err (validation_error "密码必须是非空字符串")
    else if ltb (length value) password_min_length
    then err (validation_error "密码长度至少需要 8 位")
    else ok value
normalize_password _ = err (validation_error "密码必须是非空字符串")

unfoldable pub normalize_role : Value → Result Text
unfolding role_level lower strip
normalize_role (str value) =
    let role = lower (strip value) in
    elim (role_level role) [ none ↦ err (validation_error "role 不受支持") | some level ↦ ok role ]
normalize_role _ = err (validation_error "role 必须是字符串")
