-- ===== src/Auth/Invariant/Steps.antt =====
-- Every method of the authentication service keeps the invariant, whether it returns or raises.
use homeinfra_control_center.Prelude.{
  ℕ, ◌<◌, ◌≡◌, refl, Bool, true, false, some, [], ◌∷◌, Text, txt, ==_iff, arith, count, find, any,
  inl, inr, Option-cases, ==_refl,
}
use homeinfra_control_center.Prelude.Counting.{count-find, count-append, count-change_first_same}
use homeinfra_control_center.Model.State.{User, Session, State, isoformat}
use homeinfra_control_center.Auth.Users.{Crypto, has_name, has_id, new_user, hash_password}
use homeinfra_control_center.Auth.Sessions.{cleanup_expired_sessions, new_session, push_session}
use homeinfra_control_center.Auth.Operations.{
  UserUpdates, bootstrap_admin_mutate, login_mutate, logout_mutate, resolve_principal_mutate,
  create_user_mutate, update_user_mutate, reset_password_mutate, append_user, stamp_login,
  admit_session, change_user, set_password, has_token,
}
use homeinfra_control_center.Auth.Requests.{
  Request, bootstrap, login, logout, resolve, create, update, reset, handle,
}
use homeinfra_control_center.Auth.Invariant.{IsValid, is_owner}
use homeinfra_control_center.Auth.Invariant.Changes.{
  cleanup-IsValid, drop-IsValid, stamp_session-IsValid, sort-IsValid, stamp_login-IsValid,
  set_password-IsValid, revoke-IsValid, push-IsValid, append-IsValid, update_enabled-IsValid,
  update_disabled-IsValid,
}

new_user-owner :
    (crypto : Crypto) (salt : Text) (now : ℕ) (username password role : Text) (s : State)
    → let u = new_user crypto salt now username password role true s.users in
      0 < count (is_owner u.id) (append_user u s).users
unfolding append_user new_user
new_user-owner crypto salt now username password role s =
    let u = new_user crypto salt now username password role true s.users in
    ground (arith, count-append (is_owner u.id) s.users (u ∷ []), ==_iff u.id u.id)

found-owner :
    (username : Text) (u : User) (s : State) (now : ℕ)
    → find (has_name username) s.users ≡ some u
    → u.enabled ≡ true
    → 0 < count (is_owner u.id) (stamp_login username now s).users
unfolding stamp_login
found-owner username u s now found enabled = ground (
  arith,
  count-find (is_owner u.id) {u = u} (has_name username) s.users found,
  ==_iff u.id u.id,
  count-change_first_same (is_owner u.id) (has_name username)
      (λ v. record v { last_login_at = some now }) s.users (λ v. refl),
)

module _ (crypto : Crypto) (s : State) (valid : IsValid s) where
  first_login-IsValid :
      (salt : Text) (b i : ℕ) (n p t : Text)
      → any (has_name n) s.users ≡ false
      → let u = new_user crypto salt b n p (txt "admin") true s.users in
        IsValid
          (push_session (new_session crypto i u t (append_user u s).sessions) (append_user u s))
  first_login-IsValid salt b i n p t free =
      let u = new_user crypto salt b n p (txt "admin") true s.users in
      let added : IsValid (append_user u s) =
        append-IsValid s valid crypto salt b n p (txt "admin") true free
          (inl (==_refl (txt "admin"))) in
      push-IsValid (append_user u s) added crypto i u t
        (new_user-owner crypto salt b n p (txt "admin") s)

  bootstrap-IsValid :
      (salt : Text) (b i : ℕ) (n p t : Text)
      → IsValid (bootstrap_admin_mutate crypto salt b i n p t s).1
  unfolding bootstrap_admin_mutate
  bootstrap-IsValid salt b i n p t = ground (arith, first_login-IsValid salt b i n p t)

  create-IsValid :
      (salt : Text) (b : ℕ) (n p r : Text) (e : Bool)
      → IsValid (create_user_mutate crypto salt b n p r e s).1
  unfolding create_user_mutate
  create-IsValid salt b n p r e =
      let u = new_user crypto salt b n p r e s.users in
      ground (arith, append-IsValid s valid crypto salt b n p r e, sort-IsValid (append_user u s))

  logout-IsValid : (session_id : Text) → IsValid (logout_mutate session_id s).1
  unfolding logout_mutate
  logout-IsValid session_id = drop-IsValid s valid session_id

  update-IsValid :
      (now : ℕ) (user_id : Text) (updates : UserUpdates)
      → IsValid (update_user_mutate now user_id updates s).1
  unfolding update_user_mutate
  update-IsValid now user_id updates = elim (Option-cases (find (has_id user_id) s.users)) [
    | inl absent ↦ ground (arith, valid)
    | inr (u, found) ↦ ground (
      arith,
      valid,
      update_enabled-IsValid s valid user_id updates (isoformat now) found,
      update_disabled-IsValid s valid user_id updates (isoformat now) found,
    )
  ]

  reset-IsValid :
      (salt : Text) (now : ℕ) (user_id p : Text)
      → IsValid (reset_password_mutate crypto salt now user_id p s).1
  unfolding reset_password_mutate
  reset-IsValid salt now user_id p = elim (Option-cases (find (has_id user_id) s.users)) [
    | inl absent ↦ ground (arith, valid)
    | inr (u, found) ↦
        let digest = hash_password crypto p salt in
        let changed = set_password-IsValid s valid user_id digest (isoformat now) in
        ground (
          arith,
          revoke-IsValid (change_user user_id (set_password digest (isoformat now)) s) changed u.id,
        )
  ]

  -- The state of a login at the point where the session is issued.
  issue-IsValid :
      (c st i : ℕ) (n t : Text) (u : User)
      → find (has_name n) (cleanup_expired_sessions c s).users ≡ some u
      → u.enabled ≡ true
      → let s' = stamp_login n (isoformat st) (cleanup_expired_sessions c s) in
        IsValid (push_session (new_session crypto i u t s'.sessions) s')
  issue-IsValid c st i n t u found enabled =
      let s₁ = cleanup_expired_sessions c s in
      push-IsValid (stamp_login n (isoformat st) s₁)
        (stamp_login-IsValid s₁ (cleanup-IsValid s valid c) n (isoformat st)) crypto i u t
        (found-owner n u s₁ (isoformat st) found enabled)

  login-IsValid : (c st i : ℕ) (n p t : Text) → IsValid (login_mutate crypto c st i n p t s).1
  unfolding login_mutate
  login-IsValid c st i n p t =
      let s₁ = cleanup_expired_sessions c s in
      elim (Option-cases (find (has_name n) s₁.users)) [
        | inl absent ↦ ground (arith, cleanup-IsValid s valid c)
        | inr (u, found) ↦
            ground (arith, cleanup-IsValid s valid c, issue-IsValid c st i n t u found)
      ]

module _ (crypto : Crypto) (s : State) (valid : IsValid s) where
  admit-IsValid : (seen_at : ℕ) (x : Session) → IsValid (admit_session seen_at x s).1
  unfolding admit_session
  admit-IsValid seen_at x = elim (Option-cases (find (has_id x.user_id) s.users)) [
    | inl absent ↦ ground (arith, valid)
    | inr (u, found) ↦ ground (
      arith,
      drop-IsValid s valid x.id,
      stamp_session-IsValid s valid x.token_hash (isoformat seen_at),
    )
  ]

module _ (crypto : Crypto) (s : State) (valid : IsValid s) where
  resolve-IsValid :
      (c seen_at : ℕ) (token : Text) → IsValid (resolve_principal_mutate crypto c seen_at token s).1
  unfolding resolve_principal_mutate
  resolve-IsValid c seen_at token =
      let s₁ = cleanup_expired_sessions c s in
      let cleaned = cleanup-IsValid s valid c in
      elim (Option-cases (find (has_token (crypto.sha256 token)) s₁.sessions)) [
        | inl absent ↦ ground (arith, cleaned)
        | inr (x, found) ↦ ground (arith, cleaned, admit-IsValid crypto s₁ cleaned seen_at x)
      ]

-- Every request to the authentication service, on every branch of its mutator, keeps the users
-- and sessions well-formed: unique ids and names, an enabled administrator once there are
-- users, at most 500 sessions with unique ids, and an enabled owner of each session.
pub handle-IsValid :
    (crypto : Crypto) (r : Request) (s : State) → IsValid s → IsValid (handle crypto r s)
unfolding handle
handle-IsValid crypto (bootstrap salt b i n p t) s h = bootstrap-IsValid crypto s h salt b i n p t
handle-IsValid crypto (login c st i n p t) s h = login-IsValid crypto s h c st i n p t
handle-IsValid crypto (logout x) s h = logout-IsValid crypto s h x
handle-IsValid crypto (resolve c seen t) s h = resolve-IsValid crypto s h c seen t
handle-IsValid crypto (create salt b n p r e) s h = create-IsValid crypto s h salt b n p r e
handle-IsValid crypto (update now k updates) s h = update-IsValid crypto s h now k updates
handle-IsValid crypto (reset salt now k p) s h = reset-IsValid crypto s h salt now k p
