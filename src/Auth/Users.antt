-- ===== src/Auth/Users.antt =====
-- The part of homeinfra/auth.py that finds, builds and shows users. Times that come from separate
-- calls of `utc_now` are separate arguments.
use homeinfra_control_center.Prelude.{
  ℕ, Bool, ◌&&◌, Option, none, List, map, Text, txt, ◌==◌, lower, find, any,
}
use homeinfra_control_center.Errors.{auth_required, conflict, not_found}
use homeinfra_control_center.Effects.{Action, gets, or_throw, throw_if, ◌>>=◌, ◌>>◌}
use homeinfra_control_center.Ids.{next_numbered_id}
use homeinfra_control_center.Model.State.{User, State, isoformat}
use homeinfra_control_center.Auth.Validation.{password_iterations}

-- What the code takes from `hashlib`: PBKDF2 of a password and a salt, and SHA-256 of a token.
pub record Crypto : Type 0 where
  pub pbkdf2 : Text → Text → Text
  pub sha256 : Text → Text

-- What `_public_user` shows of a user.
pub record PublicUser : Type 0 where
  pub id : Text
  pub username : Text
  pub role : Text
  pub enabled : Bool
  pub created_at : ℕ
  pub updated_at : ℕ
  pub last_login_at : Option ℕ
  pub password_updated_at : ℕ

unfoldable pub public_user : User → PublicUser
public_user user = record {
  id = user.id;
  username = user.username;
  role = user.role;
  enabled = user.enabled;
  created_at = user.created_at;
  updated_at = user.updated_at;
  last_login_at = user.last_login_at;
  password_updated_at = user.password_updated_at;
}

-- `username.casefold()`; a stored name is ASCII by `_normalize_username`.
unfoldable pub casefold : Text → Text
unfolding lower
casefold = lower

unfoldable pub has_name : Text → User → Bool
unfolding casefold
has_name username user = casefold user.username == casefold username

abbrev pub has_id : Text → User → Bool
has_id user_id user = user.id == user_id

-- The users that `_update_user_mutate` counts.
abbrev pub is_enabled_admin : User → Bool
is_enabled_admin user = user.enabled && user.role == txt "admin"

unfoldable pub find_user_by_username : Text → Action State User
find_user_by_username username = do
  found ← gets (λ state. find (has_name username) state.users)
  or_throw found (auth_required "用户名或密码错误")

unfoldable pub find_user_by_id : Text → Action State User
find_user_by_id user_id = do
  found ← gets (λ state. find (has_id user_id) state.users)
  or_throw found (not_found "user" user_id)

unfoldable pub ensure_username_available : Text → Action State (Unit {0})
ensure_username_available username = do
  taken ← gets (λ state. any (has_name username) state.users)
  throw_if taken (conflict "用户名已存在")

unfoldable pub hash_password : Crypto → Text → Text → Text × Text
hash_password crypto password salt = (crypto.pbkdf2 password salt, salt)

unfoldable pub verify_password : Crypto → Text → User → Bool
unfolding hash_password
verify_password crypto password user =
    (hash_password crypto password user.password_salt).0 == user.password_hash

unfoldable pub new_user : Crypto → Text → ℕ → Text → Text → Text → Bool → List User → User
unfolding hash_password next_numbered_id
new_user crypto salt now username password role enabled users =
    let (digest, salt_hex) = hash_password crypto password salt in
    record {
      id = next_numbered_id (txt "user") (map (λ u. u.id) users);
      username = username;
      role = role;
      enabled = enabled;
      password_hash = digest;
      password_salt = salt_hex;
      password_iterations = password_iterations;
      created_at = isoformat now;
      updated_at = isoformat now;
      last_login_at = none;
      password_updated_at = isoformat now;
    }

-- `salt` is what `os.urandom` gave.
unfoldable pub build_user : Crypto → Text → ℕ → Text → Text → Text → Bool → Action State User
unfolding ensure_username_available
build_user crypto salt now username password role enabled = do
  ensure_username_available username
  gets (λ state. new_user crypto salt now username password role enabled state.users)
