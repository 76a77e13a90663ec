-- ===== src/Tests/Auth.antt =====
-- homeinfra/auth.py on the samples.
use homeinfra_control_center.Prelude.{
  Bool, Option, String, count, ℕ, ◌≤◌, ◌≡◌, ◌≢◌, ◌↔◌, refl, true, false, none, some, List, [], ◌∷◌,
  Text, txt, inr, arith, find, All, ◌*◌,
}
use homeinfra_control_center.Errors.{ok, err, Result, auth_required, conflict, rate_limited}
use homeinfra_control_center.Model.Json.{str, end, field, Fields}
use homeinfra_control_center.Model.State.{State, User}
use homeinfra_control_center.Model.Store.Tables.{Sql, insert_alert}
use homeinfra_control_center.Samples.{disk}
use homeinfra_control_center.Auth.Limiter.Lockout.{since}
use homeinfra_control_center.Auth.Access.{role_query}
use homeinfra_control_center.Errors.{integrity_error}
use homeinfra_control_center.Prelude.{◌||◌, ◌≤◌}
use homeinfra_control_center.Ids.Fresh.{next_numbered_id_fresh}
use homeinfra_control_center.Samples.{plain_crypto, second, root, root_session, home}
use homeinfra_control_center.Auth.Operations.{Principal, LoginResult, has_token}
use homeinfra_control_center.Auth.Users.{Crypto}
use homeinfra_control_center.Auth.Requests.{Request}
use homeinfra_control_center.Auth.Invariant.Steps.{handle-IsValid}
use homeinfra_control_center.Auth.Tokens.{
  Admits, resolve_principal-Admits, resolve_principal_total, logout_revokes, reset_password_revokes,
}
use homeinfra_control_center.Auth.Logins.{login_authenticates, login_token_resolves}
use homeinfra_control_center.Auth.Limiter.{Clock, Service, Key, Limits}
use homeinfra_control_center.Auth.Limiter.Lockout.{five_failures_lock, record_all}
use homeinfra_control_center.Auth.Limiter.LoginCalls.{fifth_failed_login_locks}
use homeinfra_control_center.Auth.Access.Grants.{require_permission-grants}
use homeinfra_control_center.Prelude.{
  ◌==◌, is_space, strip, lower_char, lower, upper_char, upper, starts_with, contains, text_le,
}
use homeinfra_control_center.Ids.{
  is_digit, scan_int, unsigned, parse_int, after_last_dash, emit, format_05d, raise_highest,
  highest_of, next_numbered_id,
}
use homeinfra_control_center.Model.Json.{lookup, get_or, get, has, set}
use homeinfra_control_center.Model.Metrics.{increment, metric}
use homeinfra_control_center.Model.Store.{settle, sqlite_update, mock_update}
use homeinfra_control_center.Auth.Access.{
  permission_set, compare_levels, require_role, rpartition_colon, requested_permission,
  in_allowed_groups, decide, can_access, has_permission, require_permission,
}
use homeinfra_control_center.Auth.Invariant.{IsValid}
use homeinfra_control_center.Auth.Limiter.{
  rate_limit_key, prune_attempts, prune_failed_login_state, retry_after,
  ensure_login_not_rate_limited, add_failure, record_failed_login, clear_failed_login, after_login,
  login,
}
use homeinfra_control_center.Auth.Operations.{
  has_no_users, append_user, bootstrap_admin_mutate, stamp_login, login_mutate, drop_session,
  logout_mutate, stamp_session, admit_session, resolve_principal_mutate, name_before, sort_users,
  create_user_mutate, would_orphan, apply_updates, change_user, update_user_mutate, set_password,
  reset_password_mutate,
}
use homeinfra_control_center.Auth.Requests.{handle}
use homeinfra_control_center.Auth.Sessions.{
  is_alive, cleanup_expired_sessions, revoke_user_sessions, new_session, push_session,
  issue_session, public_session,
}
use homeinfra_control_center.Auth.Users.{
  public_user, casefold, has_name, find_user_by_username, find_user_by_id,
  ensure_username_available, hash_password, verify_password, new_user, build_user,
}
use homeinfra_control_center.Auth.Validation.{
  role_level, is_username_char, matches_username, normalize_username, normalize_password,
  normalize_role,
}
use homeinfra_control_center.Auth.Access.Grants.{grants}
use homeinfra_control_center.Model.Store.{run_statements, transaction}
use homeinfra_control_center.Model.Store.Tables.{
  execute, persist_state_to_tables, normalize_loaded_device_credentials, build_state_from_tables,
  sqlite_database,
}

-- What the tests run.
unfoldable program : Unit {0}
unfolding execute persist_state_to_tables normalize_loaded_device_credentials
    build_state_from_tables sqlite_database run_statements transaction ◌==◌ is_space strip
    lower_char lower upper_char upper starts_with contains text_le is_digit scan_int unsigned
    parse_int after_last_dash emit format_05d raise_highest highest_of next_numbered_id lookup
    get_or get has set increment metric settle sqlite_update mock_update permission_set
    compare_levels require_role rpartition_colon requested_permission in_allowed_groups decide
    can_access has_permission require_permission IsValid rate_limit_key prune_attempts
    prune_failed_login_state retry_after ensure_login_not_rate_limited add_failure
    record_failed_login clear_failed_login after_login login has_no_users append_user
    bootstrap_admin_mutate stamp_login login_mutate drop_session logout_mutate stamp_session
    admit_session resolve_principal_mutate name_before sort_users create_user_mutate would_orphan
    apply_updates change_user update_user_mutate set_password reset_password_mutate handle is_alive
    cleanup_expired_sessions revoke_user_sessions new_session push_session issue_session
    public_session public_user casefold has_name find_user_by_username find_user_by_id
    ensure_username_available hash_password verify_password new_user build_user role_level
    is_username_char matches_username normalize_username normalize_password normalize_role grants
program = tt

home-IsValid : IsValid home
unfolding program
home-IsValid = (
  record { ids = λ k. ground arith; names = λ k. ground arith; guarded = inr (omega arith) },
  record { bounded = omega arith; ids = λ k. ground arith; owned = (omega arith, tt) },
)

abbrev plain : Crypto
plain = plain_crypto

abbrev at : ℕ
at = 20_000_000

abbrev login_run : Result LoginResult × State
login_run = login_mutate plain at at at (txt "ROOT") (txt "password1") (txt "t2") home

-- A second admin cannot be bootstrapped, a wrong password is refused.
bootstrap_again :
    (bootstrap_admin_mutate plain (txt "s") at at (txt "eve") (txt "password2") (txt "t3") home).0
    ≡ err (conflict "系统已经完成初始化，不能重复创建初始管理员")
unfolding program
bootstrap_again = refl

wrong_password :
    (login_mutate plain at at at (txt "root") (txt "password2") (txt "t2") home).0
    ≡ err (auth_required "用户名或密码错误")
unfolding program
wrong_password = refl

last_admin :
    (update_user_mutate at (txt "user-00001") (record { role = none; enabled = some false }) home).0
    ≡ err (conflict "至少需要保留一个启用中的管理员账户")
unfolding program
last_admin = refl

handle-IsValid_example :
    IsValid (handle plain (Request.login at at at (txt "ROOT") (txt "password1") (txt "t2")) home)
handle-IsValid_example =
    handle-IsValid plain (Request.login at at at (txt "ROOT") (txt "password1") (txt "t2")) home
      home-IsValid

abbrev root_principal : Principal
root_principal = record {
  user_id = txt "user-00001";
  username = txt "root";
  role = txt "admin";
  subject = txt "user:root";
  auth_scheme = txt "bearer";
  session_id = txt "sess-00001";
  session_expires_at = some 1000;
}

root_resolves : (resolve_principal_mutate plain at at (txt "tok") home).0 ≡ ok root_principal
unfolding program
root_resolves = refl

resolve_principal-Admits_example : Admits plain at (txt "tok") home root_principal
resolve_principal-Admits_example =
    resolve_principal-Admits plain at at (txt "tok") home root_resolves

root_alive : is_alive at root_session ≡ true
unfolding program
root_alive = refl

root_carries : has_token (plain.sha256 (txt "tok")) root_session ≡ true
unfolding program
root_carries = refl

root_alone : count (has_token (plain.sha256 (txt "tok"))) home.sessions ≤ 1
unfolding program
root_alone = omega arith

resolve_principal_total_example :
    (p : Principal) × ((resolve_principal_mutate plain at at (txt "tok") home).0 ≡ ok p)
    × (p.session_id ≡ txt "sess-00001")
    × (p.user_id ≡ txt "user-00001")
resolve_principal_total_example =
    resolve_principal_total plain at at (txt "tok") home [] [] root_session home-IsValid refl
      root_alive root_carries root_alone

-- The second session, which a login issues, outlives the logout of the first.
abbrev two_sessions : State
two_sessions = record home {
  sessions =
      record root_session { id = txt "sess-00002"; token_hash = txt "t2" } ∷ root_session ∷ [];
}

second_resolves :
    (resolve_principal_mutate plain at at
      (txt "t2")
      (logout_mutate (txt "sess-00001") two_sessions).1).0
    ≡ ok (record root_principal { session_id = txt "sess-00002" })
unfolding program
second_resolves = refl

logout_revokes_example : txt "sess-00002" ≢ txt "sess-00001"
logout_revokes_example =
    logout_revokes plain at at (txt "t2") (txt "sess-00001") two_sessions second_resolves

-- A second user, whose session outlives the reset of the first one's password.
abbrev two_users : State
two_users = record home {
  users =
      root ∷ record root { id = txt "user-00002"; username = txt "ann"; role = txt "viewer" } ∷ [];
  sessions =
      record root_session {
        id = txt "sess-00002";
        user_id = txt "user-00002";
        token_hash = txt "t2";
      }
      ∷ root_session
      ∷ [];
}

abbrev ann_principal : Principal
ann_principal = record root_principal {
  user_id = txt "user-00002";
  username = txt "ann";
  role = txt "viewer";
  subject = txt "user:ann";
  session_id = txt "sess-00002";
}

abbrev reset_root : State
reset_root =
    (reset_password_mutate plain (txt "cd") at (txt "user-00001") (txt "password3") two_users).1

abbrev reset_user : User
reset_user = record root {
  password_hash = txt "password3cd";
  password_salt = txt "cd";
  updated_at = 20;
  password_updated_at = 20;
}

reset_done :
    (reset_password_mutate plain (txt "cd") at (txt "user-00001") (txt "password3") two_users).0
    ≡ ok (public_user reset_user)
unfolding program
reset_done = refl

ann_resolves : (resolve_principal_mutate plain at at (txt "t2") reset_root).0 ≡ ok ann_principal
unfolding program
ann_resolves = refl

reset_password_revokes_example : txt "user-00002" ≢ txt "user-00001"
reset_password_revokes_example =
    reset_password_revokes plain (txt "cd") at at at (txt "user-00001") (txt "password3") (txt "t2")
      two_users reset_done ann_resolves

abbrev login_result : LoginResult
login_result = record {
  bootstrap_required = none;
  user = public_user (record root { last_login_at = some 20 });
  token = txt "t2";
  session = record {
    id = txt "sess-00002";
    created_at = 20;
    last_seen_at = 20;
    expires_at = some 604820;
  };
}

logged_in : login_run.0 ≡ ok login_result
unfolding program
logged_in = refl

login_authenticates_example :
    (u : User) × (find (has_name (txt "ROOT")) home.users ≡ some u)
    × (u.enabled ≡ true)
    × (verify_password plain (txt "password1") u ≡ true)
    × (login_result.user.id ≡ u.id)
    × (txt "t2" ≡ txt "t2")
login_authenticates_example =
    login_authenticates plain at at at (txt "ROOT") (txt "password1") (txt "t2") home logged_in

login_token_resolves_example :
    (q : Principal) × ((resolve_principal_mutate plain
        (30 * second)
        (30 * second)
        (txt "t2")
        login_run.1).0
      ≡ ok q)
    × (q.session_id ≡ login_result.session.id)
    × (q.user_id ≡ login_result.user.id)
login_token_resolves_example =
    login_token_resolves plain at at at (txt "ROOT") (txt "password1") (txt "t2") home (30 * second)
      (30 * second) home-IsValid logged_in (omega arith)

abbrev root_key : Key
root_key = (txt "192.0.2.7", txt "root")

abbrev no_limits : Limits
no_limits key = none

abbrev four_failures : List (Key × ℕ)
four_failures =
    (root_key, 1_000_000)
    ∷ ((txt "192.0.2.8", txt "ann"), 2_000_000)
    ∷ (root_key, 3_000_000)
    ∷ (root_key, 4_000_000)
    ∷ (root_key, 5_000_000)
    ∷ []

five_failures_lock_example :
    (seconds : ℕ) × ((ensure_login_not_rate_limited 8_000_000 root_key
        (record_failed_login 6_000_000 root_key (record_all four_failures no_limits))).0
      ≡ err (rate_limited seconds))
    × (1 ≤ seconds)
    × (seconds ≤ 300)
unfolding program
five_failures_lock_example =
    five_failures_lock 1_000_000 6_000_000 8_000_000 root_key four_failures no_limits
      (
        (omega arith, omega arith),
        (
          (omega arith, omega arith),
          (
            (omega arith, omega arith),
            ((omega arith, omega arith), ((omega arith, omega arith), tt)),
          ),
        ),
      )
      (omega arith) (omega arith) (omega arith) (omega arith) (omega arith)

abbrev tried_service : Service
tried_service = record { store = home; limits = record_all four_failures no_limits }

abbrev at_once : ℕ → Clock
at_once t = record { checked_at = t; cleaned_at = t; stamped_at = t; issued_at = t; failed_at = t }

abbrev payload_with : String → String → Fields
payload_with username password =
    field (txt "username") (str (txt username)) (field (txt "password") (str (txt password)) end)

root_named :
    normalize_username (get (txt "username") (payload_with " root " "password2")) ≡ ok (txt "root")
unfolding program
root_named = refl

upper_named :
    normalize_username (get (txt "username") (payload_with "ROOT" "password1")) ≡ ok (txt "ROOT")
unfolding program
upper_named = refl

abbrev root_ip : Option Text
root_ip = some (txt "192.0.2.7")

upper_same : rate_limit_key root_ip (txt "root") ≡ rate_limit_key root_ip (txt "ROOT")
unfolding program
upper_same = refl

four_tried : 4 ≤ since 1_000_000 (rate_limit_key root_ip (txt "root")) tried_service.limits
unfolding program
four_tried = omega arith

fifth_failed :
    (login plain disk
      (at_once 6_000_000)
      (txt "t2")
      root_ip
      (payload_with " root " "password2")
      tried_service).0
    ≡ err (auth_required "用户名或密码错误")
unfolding program
fifth_failed = refl

abbrev locked_service : Service
locked_service =
    (login plain disk (at_once 6_000_000) (txt "t2") root_ip (payload_with " root " "password2")
      tried_service).1

fifth_failed_login_locks_example :
    (seconds : ℕ) × ((login plain disk
        (at_once 8_000_000)
        (txt "t3")
        root_ip
        (payload_with "ROOT" "password1")
        locked_service).0
      ≡ err (rate_limited seconds))
    × ((login plain disk
          (at_once 8_000_000)
          (txt "t3")
          root_ip
          (payload_with "ROOT" "password1")
          locked_service).1.store
        ≡ locked_service.store)
    × (1 ≤ seconds)
    × (seconds ≤ 300)
fifth_failed_login_locks_example =
    fifth_failed_login_locks plain disk 1_000_000 (at_once 6_000_000) (at_once 8_000_000) (txt "t2")
      (txt "t3") root_ip root_ip (payload_with " root " "password2")
      (payload_with "ROOT" "password1") tried_service root_named four_tried fifth_failed
      (omega arith) (omega arith) (omega arith) upper_named upper_same (omega arith) (omega arith)

require_permission-grants_example :
    (has_permission (txt "viewer") (txt "devices") (txt "write")
      ≡ grants (txt "viewer") (txt "devices:write"))
    × ((require_permission
            (some (txt "viewer"))
            (txt "devices")
            (txt "write")
            (some (txt "grp-rack"))
            (some (txt "grp-rack" ∷ []))
          ≡ ok tt)
        ↔ ((grants (txt "viewer") (txt "devices:write")
              || in_allowed_groups (
                  role_query
                    (txt "devices")
                    (txt "write")
                    (some (txt "grp-rack"))
                    (some (txt "grp-rack" ∷ []))))
            ≡ true))
require_permission-grants_example =
    require_permission-grants (txt "viewer") (txt "devices") (txt "write") (some (txt "grp-rack"))
      (some (txt "grp-rack" ∷ [])) refl refl

-- A viewer reads devices and writes none.
viewer_reads : (has_permission (txt "viewer") (txt "devices") (txt "read")) ≡ true
unfolding program
viewer_reads = refl

viewer_writes : (has_permission (txt "viewer") (txt "devices") (txt "write")) ≡ false
unfolding program
viewer_writes = refl

abbrev some_ids : List Text
some_ids = txt "user-00001" ∷ txt "user-7" ∷ txt "user-x" ∷ txt "grp-9" ∷ []

next_user : next_numbered_id (txt "user") some_ids ≡ txt "user-00008"
unfolding program
next_user = refl

next_numbered_id_fresh_example : All (λ i. i ≢ next_numbered_id (txt "user") some_ids) some_ids
next_numbered_id_fresh_example = next_numbered_id_fresh (txt "user") some_ids

-- A statement that is refused in the middle undoes those before it.
abbrev refuses_alerts : Sql → State → Bool
refuses_alerts (insert_alert a) tables = true
refuses_alerts _ tables = false

refused_halfway :
    sqlite_update
      (sqlite_database refuses_alerts)
      (login_mutate plain at at at (txt "root") (txt "password1") (txt "t2"))
      home
    ≡ (err integrity_error, home)
unfolding program
refused_halfway = refl
