-- ===== src/Auth/Limiter.antt =====
-- The limit on failed logins of homeinfra/auth.py: the keys, the four methods on
-- `_failed_login_state`, and `login`, which calls them around the update of the store. The lock
-- makes each method one step. The children prove when the limit holds.
pub mod Lockout
pub mod LoginCalls
use homeinfra_control_center.Prelude.{
  ℕ, ◌+◌, ◌-◌, ◌/◌, max, Bool, true, false, ◌&&◌, ◌||◌, Option, none, some, List, [], ◌∷◌, ◌++◌,
  Text, txt, ◌==◌, strip, or_else, is_empty, leb, ltb, keep, length, if◌then◌else◌,
}
use homeinfra_control_center.Errors.{Error, Result, ok, err, auth_required, rate_limited}
use homeinfra_control_center.Effects.{Action, gets, modify, lift, ◌>>=◌, ◌>>◌}
use homeinfra_control_center.Model.Json.{Value, Fields, get}
use homeinfra_control_center.Model.State.{State}
use homeinfra_control_center.Model.Store.{Database, sqlite_update}
use homeinfra_control_center.Auth.Validation.{normalize_username, normalize_password}
use homeinfra_control_center.Auth.Users.{Crypto, casefold}
use homeinfra_control_center.Auth.Operations.{LoginResult, login_mutate}

-- Microseconds.
abbrev pub failed_login_window : ℕ
failed_login_window = 300_000_000

abbrev pub failed_login_cooldown : ℕ
failed_login_cooldown = 300_000_000

abbrev pub failed_login_limit : ℕ
failed_login_limit = 5

abbrev pub Key : Type 0
Key = Text × Text

abbrev pub same_key : Key → Key → Bool
same_key (a, b) (c, d) = a == c && b == d

pub record Attempts : Type 0 where
  pub failures : List ℕ
  pub cooldown_until : Option ℕ

-- `_failed_login_state`, as the function `get`.
abbrev pub Limits : Type 0
Limits = Key → Option Attempts

-- `(now - failure_at).total_seconds() <= FAILED_LOGIN_WINDOW_SECONDS`
abbrev pub is_recent : ℕ → ℕ → Bool
is_recent now failure_at = leb (now - failure_at) failed_login_window

-- `client_ip or "unknown"`
abbrev pub known_ip : Option Text → Text
known_ip none = txt "unknown"
known_ip (some s) = or_else s (txt "unknown")

-- `_rate_limit_key`
unfoldable pub rate_limit_key : Option Text → Text → Key
unfolding strip casefold
rate_limit_key client_ip username =
    (or_else (strip (known_ip client_ip)) (txt "unknown"), casefold username)

-- A cooldown that is over is forgotten.
abbrev pub pruned_cooldown : ℕ → Option ℕ → Option ℕ
pruned_cooldown now none = none
pruned_cooldown now (some until) = if leb until now then none else some until

abbrev pub is_some {ℓ} : {A : Type ℓ} → Option A → Bool
is_some none = false
is_some (some a) = true

-- The body of the loop of `_prune_failed_login_state`; `none` is the `pop`.
unfoldable pub prune_attempts : ℕ → Attempts → Option Attempts
prune_attempts now a =
    let failures = keep (is_recent now) a.failures in
    let cooldown_until = pruned_cooldown now a.cooldown_until in
    if leb 1 (length failures) || is_some cooldown_until
    then some (record { failures = failures; cooldown_until = cooldown_until })
    else none

abbrev pub prune_entry : ℕ → Option Attempts → Option Attempts
prune_entry now none = none
prune_entry now (some a) = prune_attempts now a

unfoldable pub prune_failed_login_state : ℕ → Limits → Limits
unfolding prune_attempts
prune_failed_login_state now limits key = prune_entry now (limits key)

-- `max(1, int((cooldown_until - now).total_seconds()))` while the cooldown lasts.
unfoldable pub retry_after : ℕ → Option Attempts → Option ℕ
retry_after now none = none
retry_after now (some a) = elim a.cooldown_until [
  | none ↦ none
  | some until ↦ if ltb now until then some (max 1 ((until - now) / 1000000)) else none
]

abbrev pub refuse : Option ℕ → Result (Unit {0})
refuse none = ok tt
refuse (some seconds) = err (rate_limited seconds)

unfoldable pub ensure_login_not_rate_limited : ℕ → Key → Action Limits (Unit {0})
unfolding prune_failed_login_state retry_after
ensure_login_not_rate_limited now key limits =
    let pruned = prune_failed_login_state now limits in
    (refuse (retry_after now (pruned key)), pruned)

-- `setdefault(key, {"failures": [], "cooldown_until": None})`
abbrev pub or_fresh : Option Attempts → Attempts
or_fresh none = record { failures = []; cooldown_until = none }
or_fresh (some a) = a

-- What `_record_failed_login` makes of the entry, a new one if there is none.
unfoldable pub add_failure : ℕ → Option Attempts → Attempts
add_failure now entry =
    let a = or_fresh entry in
    let failures = keep (is_recent now) a.failures ++ (now ∷ []) in
    record {
      failures = failures;
      cooldown_until =
          if leb failed_login_limit (length failures)
          then some (now + failed_login_cooldown)
          else a.cooldown_until;
    }

unfoldable pub record_failed_login : ℕ → Key → Limits → Limits
unfolding prune_failed_login_state add_failure
record_failed_login now key limits other =
    if same_key key other
    then some (add_failure now (prune_failed_login_state now limits other))
    else prune_failed_login_state now limits other

unfoldable pub clear_failed_login : Key → Limits → Limits
clear_failed_login key limits other = if same_key key other then none else limits other

-- The service keeps the limits in memory and the state in its store.
pub record Service : Type 0 where
  pub store : State
  pub limits : Limits

abbrev pub on_store : {A : Type 0} → Action State A → Action Service A
on_store m s = let (r, t) = m s.store in (r, record s { store = t })

abbrev pub on_limits : {A : Type 0} → Action Limits A → Action Service A
on_limits m s = let (r, l) = m s.limits in (r, record s { limits = l })

-- `except AuthError: record; raise`, and on a success `clear`. Another error passes by both.
unfoldable pub after_login : ℕ → Key → Result LoginResult → Action Service LoginResult
unfolding record_failed_login clear_failed_login
after_login failed_at key (ok result) s =
    (ok result, record s { limits = clear_failed_login key s.limits })
after_login failed_at key (err (auth_required m)) s =
    (err (auth_required m), record s { limits = record_failed_login failed_at key s.limits })
after_login failed_at key (err e) s = (err e, s)

-- The times that a login reads from the clock, in this order.
pub record Clock : Type 0 where
  pub checked_at : ℕ
  pub cleaned_at : ℕ
  pub stamped_at : ℕ
  pub issued_at : ℕ
  pub failed_at : ℕ

-- `update`, with its outcome as a value.
abbrev pub attempt : {A : Type 0} → Action Service A → Action Service (Result A)
attempt m s = let (r, t) = m s in (ok r, t)

-- `login`; `token` is what `_generate_token` gave.
unfoldable pub login :
    Crypto → Database State → Clock → Text → Option Text → Fields → Action Service LoginResult
unfolding rate_limit_key ensure_login_not_rate_limited sqlite_update login_mutate after_login
    normalize_username normalize_password get
login crypto database clock token client_ip payload = do
  username ← lift (normalize_username (get (txt "username") payload))
  on_limits (ensure_login_not_rate_limited clock.checked_at (rate_limit_key client_ip username))
  password ← lift (normalize_password (get (txt "password") payload))
  outcome ← attempt (
      on_store (
        sqlite_update database (
          login_mutate crypto clock.cleaned_at clock.stamped_at clock.issued_at username password
            token)))
  after_login clock.failed_at (rate_limit_key client_ip username) outcome
