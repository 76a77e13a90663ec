-- ===== src/Auth/Limiter/LoginCalls.antt =====
-- How `login` of homeinfra/auth.py uses the limit: what a failed login leaves in the table, and what
-- a login does on a key that is locked.
use homeinfra_control_center.Prelude.{
  ℕ, ◌+◌, ◌≤◌, ◌<◌, ◌≡◌, ◌≢◌, refl, sym, subst, Option, String, Text, txt, arith, inl, inr, none,
  some,
}
use homeinfra_control_center.Errors.{Result, ok, err, auth_required, rate_limited, Result-cases}
use homeinfra_control_center.Model.Json.{Value, Fields, get}
use homeinfra_control_center.Model.Store.{Database, sqlite_update}
use homeinfra_control_center.Model.State.{State}
use homeinfra_control_center.Auth.Users.{Crypto}
use homeinfra_control_center.Auth.Operations.{LoginResult, login_mutate}
use homeinfra_control_center.Auth.Validation.{normalize_username, normalize_password}
use homeinfra_control_center.Auth.Limiter.{
  Key, Limits, Clock, Service, rate_limit_key, refuse, retry_after, prune_failed_login_state,
  ensure_login_not_rate_limited, record_failed_login, after_login, login, failed_login_window,
  failed_login_cooldown,
}
use homeinfra_control_center.Auth.Limiter.Lockout.{since, since-prune, fifth_locks}

-- An AuthError is recorded.
failed_limits :
    (at : ℕ) (key : Key) (r : Result LoginResult) (s : Service) {m : String}
    → (after_login at key r s).0 ≡ err (auth_required m)
    → (after_login at key r s).1.limits ≡ record_failed_login at key s.limits
unfolding after_login
failed_limits at key (ok result) s h = cc
failed_limits at key (err (auth_required m)) s h = refl
failed_limits at key (err _) s h = cc

refuse-rate_limited : (o : Option ℕ) {m : String} → refuse o ≢ err (auth_required m)
refuse-rate_limited none = λ h. cc
refuse-rate_limited (some n) = λ h. cc

normalize_password-error : (v : Value) {m : String} → normalize_password v ≢ err (auth_required m)
unfolding normalize_password
normalize_password-error v {m} = λ h. absurd (ground arith)

module _ (crypto : Crypto) (database : Database State) (clock : Clock) (token : Text)
    (ip : Option Text) (payload : Fields) (s : Service) {username : Text}
    (named : normalize_username (get (txt "username") payload) ≡ ok username) where
  abbrev key : Key
  key = rate_limit_key ip username

  abbrev pruned : Limits
  pruned = prune_failed_login_state clock.checked_at s.limits

  locked_refused :
      {seconds : ℕ}
      → (ensure_login_not_rate_limited clock.checked_at key s.limits).0 ≡ err (rate_limited seconds)
      → ((login crypto database clock token ip payload s).0 ≡ err (rate_limited seconds))
        × ((login crypto database clock token ip payload s).1.store ≡ s.store)
  unfolding login
  locked_refused locked = (ground arith, ground arith)

  failed_login-limits :
      {m : String}
      → (login crypto database clock token ip payload s).0 ≡ err (auth_required m)
      → (login crypto database clock token ip payload s).1.limits
        ≡ record_failed_login clock.failed_at key pruned
  unfolding login ensure_login_not_rate_limited normalize_password
  failed_login-limits {m} h =
      elim (Result-cases (refuse (retry_after clock.checked_at (pruned key)))) [
        | inl (e, refused) ↦ absurd (
            ground (arith, refuse-rate_limited (retry_after clock.checked_at (pruned key)) {m = m}))
        | inr (u, open_key) ↦
            elim (Result-cases (normalize_password (get (txt "password") payload))) [
              | inl (e, invalid) ↦
                  absurd (
                    ground (arith, normalize_password-error (get (txt "password") payload) {m = m}))
              | inr (password, valid) ↦
                  let run =
                    sqlite_update database
                      (login_mutate crypto clock.cleaned_at clock.stamped_at clock.issued_at
                        username password token)
                      s.store in
                  let after = record s { store = run.1; limits = pruned } in
                  let same : login crypto database clock token ip payload s
                      ≡ after_login clock.failed_at key run.0 after =
                    ground arith in
                  subst
                    (λ (o : Result LoginResult × Service).
                      o.1.limits ≡ record_failed_login clock.failed_at key pruned)
                    (sym same)
                    (failed_limits clock.failed_at key run.0 after (
                      subst (λ (o : Result LoginResult × Service). o.0 ≡ err (auth_required m)) same
                        h))
            ]
      ]

module _ (crypto : Crypto) (database : Database State) (a : ℕ) (first second : Clock)
    (token next_token : Text) (ip next_ip : Option Text) (payload next_payload : Fields)
    (s : Service) where
  abbrev pub after_failure : Service
  after_failure = (login crypto database first token ip payload s).1

  -- Where the table holds four failures of a key that are not older than some time, and a login
  -- with that key fails with an AuthError within 300 seconds of the time, then for the next 300
  -- seconds every login whose address and name give the same key is refused, whatever its
  -- password, with a delay of 1 to 300 seconds, and the store is not touched.
  pub fifth_failed_login_locks :
      {username next_name : Text} {m : String}
      → normalize_username (get (txt "username") payload) ≡ ok username
      → 4 ≤ since a (rate_limit_key ip username) s.limits
      → (login crypto database first token ip payload s).0 ≡ err (auth_required m)
      → first.checked_at ≤ a + failed_login_window
      → a ≤ first.failed_at
      → first.failed_at ≤ a + failed_login_window
      → normalize_username (get (txt "username") next_payload) ≡ ok next_name
      → rate_limit_key ip username ≡ rate_limit_key next_ip next_name
      → first.failed_at ≤ second.checked_at
      → second.checked_at < first.failed_at + failed_login_cooldown
      → (seconds : ℕ) × ((login crypto database second next_token next_ip next_payload
            after_failure).0
          ≡ err (rate_limited seconds))
        × ((login crypto database second next_token next_ip next_payload after_failure).1.store
            ≡ after_failure.store)
        × (1 ≤ seconds)
        × (seconds ≤ 300)
  fifth_failed_login_locks {username} {next_name} {m} named four failed checked late soon again same
        after before =
      let key = rate_limit_key ip username in
      let table = prune_failed_login_state first.checked_at s.limits in
      let (seconds, refused, least, most) =
        fifth_locks a first.failed_at second.checked_at key table
          (omega (arith, since-prune a first.checked_at checked key s.limits)) late soon after
          before in
      let limits =
        failed_login-limits crypto database first token ip payload s named {m = m} failed in
      let locked =
        locked_refused crypto database second next_token next_ip next_payload after_failure again
          {seconds = seconds}
          (subst
            (λ k.
              (ensure_login_not_rate_limited second.checked_at k after_failure.limits).0
              ≡ err (rate_limited seconds))
            same
            (subst
              (λ l.
                (ensure_login_not_rate_limited second.checked_at key l).0
                ≡ err (rate_limited seconds))
              (sym limits) refused)) in
      (seconds, locked.0, locked.1, least, most)
