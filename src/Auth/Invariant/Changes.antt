-- ===== src/Auth/Invariant/Changes.antt =====
-- Each change that the methods make to the state keeps the invariant.
use homeinfra_control_center.Prelude.{
  ℕ, ◌<◌, ◌≡◌, refl, ◌⊎◌, Bool, true, false, ◌&&◌, not, some, List, [], ◌∷◌, Text, txt, ◌==◌,
  ==_iff, arith, count, find, any, map, change_first, keep, inl, inr, subst, sym,
}
use homeinfra_control_center.Prelude.Counting.{
  count-append, count-map, find-holds, any-eq_false, count-change_first_same,
}
use homeinfra_control_center.Ids.{next_numbered_id}
use homeinfra_control_center.Ids.Fresh.{next_numbered_id_fresh, count_of_absent}
use homeinfra_control_center.Model.State.{User, Session, State}
use homeinfra_control_center.Auth.Users.{Crypto, has_name, has_id, new_user}
use homeinfra_control_center.Auth.Sessions.{
  has_session_id, of_user, cleanup_expired_sessions, revoke_user_sessions, new_session,
  push_session, is_alive,
}
use homeinfra_control_center.Auth.Operations.{
  UserUpdates, has_no_users, append_user, stamp_login, drop_session, stamp_session, has_token,
  sort_users, name_before, would_orphan, apply_updates, change_user, set_password,
}
use homeinfra_control_center.Auth.Invariant.{UsersValid, SessionsValid, IsValid, is_owner}
use homeinfra_control_center.Auth.Invariant.Users.{
  append-UsersValid, sort-UsersValid, change-UsersValid, change_same-UsersValid, update-guarded,
}
use homeinfra_control_center.Auth.Invariant.Sessions.{
  keep-SessionsValid, push-SessionsValid, change-SessionsValid, users-SessionsValid,
  revoked-SessionsValid, update_enabled-owners, update-other_owners,
}
use homeinfra_control_center.Prelude.Counting.{count-sort}

fresh_user_id :
    (users : List User)
    → count (has_id (next_numbered_id (txt "user") (map (λ u. u.id) users))) users ≡ 0
fresh_user_id users =
    let ids = map (λ (u : User). u.id) users in
    let new = next_numbered_id (txt "user") ids in
    omega (
      arith,
      count_of_absent new ids (next_numbered_id_fresh (txt "user") ids),
      count-map {0, 0} (λ i. i == new) (λ (u : User). u.id) users,
    )

fresh_session_id :
    (sessions : List Session)
    → count (has_session_id (next_numbered_id (txt "sess") (map (λ s. s.id) sessions))) sessions ≡ 0
fresh_session_id sessions =
    let ids = map (λ (s : Session). s.id) sessions in
    let new = next_numbered_id (txt "sess") ids in
    omega (
      arith,
      count_of_absent new ids (next_numbered_id_fresh (txt "sess") ids),
      count-map {0, 0} (λ i. i == new) (λ (s : Session). s.id) sessions,
    )

module _ (s : State) (valid : IsValid s) where
  pub cleanup-IsValid : (now : ℕ) → IsValid (cleanup_expired_sessions now s)
  unfolding IsValid cleanup_expired_sessions
  cleanup-IsValid now = (valid.0, keep-SessionsValid s.users s.sessions valid.1 (is_alive now))

  pub drop-IsValid : (session_id : Text) → IsValid (drop_session session_id s)
  unfolding IsValid drop_session
  drop-IsValid session_id = (
    valid.0,
    keep-SessionsValid s.users s.sessions valid.1 (λ x. not (has_session_id session_id x)),
  )

  pub stamp_session-IsValid :
      (token_hash : Text) (now : ℕ) → IsValid (stamp_session token_hash now s)
  unfolding IsValid stamp_session
  stamp_session-IsValid token_hash now = (
    valid.0,
    change-SessionsValid s.users s.sessions valid.1 (has_token token_hash)
        (λ x. record x { last_seen_at = now }) (λ x. refl) (λ x. refl),
  )

  pub sort-IsValid : IsValid (sort_users s)
  unfolding IsValid sort_users
  sort-IsValid = (
    sort-UsersValid name_before s.users valid.0,
    users-SessionsValid s.users s.sessions valid.1 _
        (λ k. omega (arith, count-sort {0} (is_owner k) name_before s.users)),
  )

  -- A change that leaves id, name, role and activation alone.
  quiet-IsValid :
      (q : User → Bool) (f : User → User)
      → ((u : User) → (f u).id ≡ u.id)
      → ((u : User) → (f u).username ≡ u.username)
      → ((u : User) → (f u).role ≡ u.role)
      → ((u : User) → (f u).enabled ≡ u.enabled)
      → IsValid (record s { users = change_first q f s.users })
  unfolding IsValid
  quiet-IsValid q f same_id same_name same_role same_enabled = (
    change_same-UsersValid q f s.users valid.0 same_id same_name
        (λ u. cc (same_role u, same_enabled u)),
    users-SessionsValid s.users s.sessions valid.1 _ (λ k. omega (
      arith,
      count-change_first_same {0} (is_owner k) q f s.users (λ u. cc (same_id u, same_enabled u)),
    )),
  )

  pub stamp_login-IsValid : (username : Text) (now : ℕ) → IsValid (stamp_login username now s)
  unfolding stamp_login
  stamp_login-IsValid username now =
      quiet-IsValid (has_name username) (λ u. record u { last_login_at = some now }) (λ u. refl)
        (λ u. refl) (λ u. refl) (λ u. refl)

  pub set_password-IsValid :
      (user_id : Text) (digest : Text × Text) (now : ℕ)
      → IsValid (change_user user_id (set_password digest now) s)
  unfolding change_user set_password
  set_password-IsValid user_id digest now =
      quiet-IsValid (has_id user_id) (set_password digest now) (λ u. refl) (λ u. refl) (λ u. refl)
        (λ u. refl)

  pub revoke-IsValid : (user_id : Text) → IsValid (revoke_user_sessions user_id s)
  unfolding IsValid revoke_user_sessions
  revoke-IsValid user_id =
      (valid.0, keep-SessionsValid s.users s.sessions valid.1 (λ x. not (of_user user_id x)))

  -- A session is issued to a user that is there and enabled.
  pub push-IsValid :
      (crypto : Crypto) (now : ℕ) (u : User) (token : Text)
      → 0 < count (is_owner u.id) s.users
      → IsValid (push_session (new_session crypto now u token s.sessions) s)
  unfolding IsValid push_session new_session
  push-IsValid crypto now u token owner = (
    valid.0,
    push-SessionsValid s.users s.sessions valid.1 (new_session crypto now u token s.sessions)
        (fresh_session_id s.sessions) owner,
  )

  -- A new user takes a fresh id; the first one of all is an enabled administrator.
  pub append-IsValid :
      (crypto : Crypto) (salt : Text) (now : ℕ) (username password role : Text) (enabled : Bool)
      → any (has_name username) s.users ≡ false
      → ((enabled && role == txt "admin") ≡ true) ⊎ (has_no_users s ≡ false)
      → IsValid (append_user (new_user crypto salt now username password role enabled s.users) s)
  unfolding IsValid append_user new_user has_no_users
  append-IsValid crypto salt now username password role enabled free admin =
      let u = new_user crypto salt now username password role enabled s.users in
      (
        append-UsersValid u s.users valid.0 (fresh_user_id s.users)
            (any-eq_false (has_name username) s.users free) (ground (arith, admin)),
        users-SessionsValid s.users s.sessions valid.1 _
            (λ k. omega (arith, count-append {0} (is_owner k) s.users (u ∷ []))),
      )

module _ (s : State) (valid : IsValid s) (user_id : Text) (updates : UserUpdates) (now : ℕ)
    {u : User} (found : find (has_id user_id) s.users ≡ some u)
    (safe : would_orphan updates u s ≡ false) where
  updated-UsersValid :
      UsersValid (change_first (has_id user_id) (apply_updates updates now) s.users)
  unfolding IsValid apply_updates
  updated-UsersValid =
      change-UsersValid (has_id user_id) (apply_updates updates now) s.users valid.0 (λ u. refl)
        (λ u. refl)
        (elim valid.0.guarded [
          | inl empty ↦ inl empty
          | inr admin ↦ inr (update-guarded user_id updates now u s found safe admin)
        ])

  pub update_enabled-IsValid :
      (apply_updates updates now u).enabled ≡ true
      → IsValid (change_user user_id (apply_updates updates now) s)
  unfolding IsValid change_user
  update_enabled-IsValid enabled = (
    updated-UsersValid,
    users-SessionsValid s.users s.sessions valid.1 _
        (λ k. update_enabled-owners user_id k updates now u s.users found enabled),
  )

  pub update_disabled-IsValid : IsValid (
      revoke_user_sessions
        (apply_updates updates now u).id
        (change_user user_id (apply_updates updates now) s))
  unfolding IsValid change_user revoke_user_sessions apply_updates
  update_disabled-IsValid =
      let same : u.id ≡ user_id =
        (==_iff u.id user_id).0 (find-holds (has_id user_id) s.users found) in
      (
        updated-UsersValid,
        subst
            (λ i.
              SessionsValid (change_first (has_id user_id) (apply_updates updates now) s.users)
                (keep (λ x. not (of_user i x)) s.sessions))
            (sym same)
            (revoked-SessionsValid s.users s.sessions valid.1 _ user_id (λ k other.
              update-other_owners user_id k (apply_updates updates now) s.users (λ u. refl) other)),
      )
