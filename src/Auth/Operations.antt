-- ===== src/Auth/Operations.antt =====
-- The `_…_mutate` methods of homeinfra/auth.py, which run inside one `store.update`. A time that
-- the source asks the clock for anew is an argument of its own.
use homeinfra_control_center.Prelude.{
  ℕ, Bool, true, false, ◌&&◌, ◌||◌, not, Option, none, some, [], ◌∷◌, ◌++◌, Text, text_le, txt,
  ◌==◌, leb, nat_eq, length, count, find, keep, change_first, sort, if◌then◌else◌,
}
use homeinfra_control_center.Errors.{auth_required, conflict}
use homeinfra_control_center.Effects.{Action, gets, modify, or_throw, throw_if, pure, ◌>>=◌, ◌>>◌}
use homeinfra_control_center.Model.State.{User, Session, State, isoformat}
use homeinfra_control_center.Auth.Validation.{password_iterations}
use homeinfra_control_center.Auth.Users.{
  Crypto, PublicUser, public_user, casefold, has_name, has_id, is_enabled_admin,
  find_user_by_username, find_user_by_id, ensure_username_available, hash_password, verify_password,
  build_user,
}
use homeinfra_control_center.Auth.Sessions.{
  PublicSession, public_session, cleanup_expired_sessions, has_session_id, revoke_user_sessions,
  issue_session,
}

-- `Principal`
pub record Principal : Type 0 where
  pub user_id : Text
  pub username : Text
  pub role : Text
  pub subject : Text
  pub auth_scheme : Text
  pub session_id : Text
  pub session_expires_at : Option ℕ

-- The answers of bootstrap and login.
pub record LoginResult : Type 0 where
  pub bootstrap_required : Option Bool
  pub user : PublicUser
  pub token : Text
  pub session : PublicSession

-- `not state["users"]`
unfoldable pub has_no_users : State → Bool
has_no_users state = nat_eq (length state.users) 0

-- `state["users"].append(user)`
unfoldable pub append_user : User → State → State
append_user user state = record state { users = state.users ++ (user ∷ []) }

unfoldable pub bootstrap_admin_mutate :
    Crypto → Text → ℕ → ℕ → Text → Text → Text → Action State LoginResult
unfolding build_user issue_session
bootstrap_admin_mutate crypto salt built_at issued_at username password token = do
  started ← gets (λ state. not (has_no_users state))
  throw_if started (conflict "系统已经完成初始化，不能重复创建初始管理员")
  user ← build_user crypto salt built_at username password (txt "admin") true
  modify (append_user user)
  session ← issue_session crypto issued_at user token
  pure (record {
    bootstrap_required = some false;
    user = public_user user;
    token = token;
    session = public_session session;
  })

-- `user["last_login_at"] = now`, on the user that was found by name.
unfoldable pub stamp_login : Text → ℕ → State → State
stamp_login username now state = record state {
  users = change_first (has_name username) (λ u. record u { last_login_at = some now }) state.users;
}

unfoldable pub login_mutate : Crypto → ℕ → ℕ → ℕ → Text → Text → Text → Action State LoginResult
unfolding find_user_by_username issue_session
login_mutate crypto cleaned_at stamped_at issued_at username password token = do
  modify (cleanup_expired_sessions cleaned_at)
  empty ← gets has_no_users
  throw_if empty (conflict "系统尚未初始化，请先创建管理员账户")
  user ← find_user_by_username username
  throw_if (not user.enabled) (auth_required "账户已被禁用")
  throw_if (not (verify_password crypto password user)) (auth_required "用户名或密码错误")
  modify (stamp_login username (isoformat stamped_at))
  session ← issue_session crypto issued_at user token
  pure (record {
    bootstrap_required = none;
    user = public_user (record user { last_login_at = some (isoformat stamped_at) });
    token = token;
    session = public_session session;
  })

-- `[session for session in state["sessions"] if session["id"] != session_id]`
unfoldable pub drop_session : Text → State → State
drop_session session_id state = record state {
  sessions = keep (λ s. not (has_session_id session_id s)) state.sessions;
}

-- True if a session was dropped.
unfoldable pub logout_mutate : Text → Action State Bool
logout_mutate session_id = do
  before ← gets (λ state. length state.sessions)
  modify (drop_session session_id)
  after ← gets (λ state. length state.sessions)
  pure (not (nat_eq before after))

abbrev pub has_token : Text → Session → Bool
has_token token_hash session = session.token_hash == token_hash

-- `session["last_seen_at"] = now`, on the session that the loop stands at.
unfoldable pub stamp_session : Text → ℕ → State → State
stamp_session token_hash now state = record state {
  sessions =
      change_first (has_token token_hash) (λ s. record s { last_seen_at = now }) state.sessions;
}

-- The body of the loop at the session that carries the token.
unfoldable pub admit_session : ℕ → Session → Action State Principal
unfolding find_user_by_id
admit_session seen_at session = do
  user ← find_user_by_id session.user_id
  modify (λ state. if user.enabled then state else drop_session session.id state)
  throw_if (not user.enabled) (auth_required "账户已被禁用")
  modify (stamp_session session.token_hash (isoformat seen_at))
  pure (record {
    user_id = user.id;
    username = user.username;
    role = user.role;
    subject = txt "user:" ++ user.username;
    auth_scheme = txt "bearer";
    session_id = session.id;
    session_expires_at = session.expires_at;
  })

-- The first session that carries the token ends the loop.
unfoldable pub resolve_principal_mutate : Crypto → ℕ → ℕ → Text → Action State Principal
unfolding admit_session
resolve_principal_mutate crypto cleaned_at seen_at token = do
  modify (cleanup_expired_sessions cleaned_at)
  empty ← gets has_no_users
  throw_if empty (auth_required "系统尚未初始化，请先创建管理员账户")
  found ← gets (λ state. find (has_token (crypto.sha256 token)) state.sessions)
  session ← or_throw found (auth_required "会话无效或已过期")
  admit_session seen_at session

-- The key of `list.sort` for users.
unfoldable pub name_before : User → User → Bool
unfolding casefold text_le
name_before a b = text_le (casefold a.username) (casefold b.username)

unfoldable pub sort_users : State → State
unfolding name_before
sort_users state = record state { users = sort name_before state.users }

unfoldable pub create_user_mutate :
    Crypto → Text → ℕ → Text → Text → Text → Bool → Action State PublicUser
unfolding ensure_username_available build_user
create_user_mutate crypto salt built_at username password role enabled = do
  empty ← gets has_no_users
  throw_if empty (conflict "系统尚未初始化，请先创建管理员账户")
  ensure_username_available username
  user ← build_user crypto salt built_at username password role enabled
  modify (append_user user)
  modify sort_users
  pure (public_user user)

-- The validated fields of a user update.
pub record UserUpdates : Type 0 where
  pub role : Option Text
  pub enabled : Option Bool

-- `updates.get(key, user[key])`
abbrev pub updated {ℓ} : {A : Type ℓ} → Option A → A → A
updated none old = old
updated (some new) old = new

-- The guard: the last enabled administrator keeps the role and stays enabled.
unfoldable pub would_orphan : UserUpdates → User → State → Bool
would_orphan updates user state =
    user.role == txt "admin"
    && (not (updated updates.role user.role == txt "admin")
        || not (updated updates.enabled user.enabled))
    && leb (count is_enabled_admin state.users) 1

unfoldable pub apply_updates : UserUpdates → ℕ → User → User
apply_updates updates now user = record user {
  role = updated updates.role user.role;
  enabled = updated updates.enabled user.enabled;
  updated_at = now;
}

-- A change of the user dictionary that `_find_user_by_id` returned.
unfoldable pub change_user : Text → (User → User) → State → State
change_user user_id f state = record state { users = change_first (has_id user_id) f state.users }

unfoldable pub update_user_mutate : ℕ → Text → UserUpdates → Action State PublicUser
unfolding find_user_by_id
update_user_mutate now user_id updates = do
  user ← find_user_by_id user_id
  orphaned ← gets (would_orphan updates user)
  throw_if orphaned (conflict "至少需要保留一个启用中的管理员账户")
  modify (change_user user_id (apply_updates updates (isoformat now)))
  let user' = apply_updates updates (isoformat now) user
  modify (λ state. if user'.enabled then state else revoke_user_sessions user'.id state)
  pure (public_user user')

unfoldable pub set_password : Text × Text → ℕ → User → User
set_password digest now user = record user {
  password_hash = digest.0;
  password_salt = digest.1;
  password_iterations = password_iterations;
  password_updated_at = now;
  updated_at = now;
}

unfoldable pub reset_password_mutate : Crypto → Text → ℕ → Text → Text → Action State PublicUser
unfolding find_user_by_id
reset_password_mutate crypto salt now user_id password = do
  user ← find_user_by_id user_id
  let digest = hash_password crypto password salt
  modify (change_user user_id (set_password digest (isoformat now)))
  modify (revoke_user_sessions user.id)
  pure (public_user (set_password digest (isoformat now) user))
