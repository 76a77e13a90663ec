-- ===== src/Auth/Logins.antt =====
-- What a successful login has checked, and that its token is good until the session expires.
use homeinfra_control_center.Prelude.{
  ℕ, ◌+◌, ◌<◌, ◌≡◌, ◌≢◌, true, none, some, Text, ==_refl, arith, lt→ltb, find, sym, ◌∙◌, inl, inr,
  Option-cases,
}
use homeinfra_control_center.Errors.{ok}
use homeinfra_control_center.Model.State.{User, Session, State, isoformat, from_isoformat}
use homeinfra_control_center.Auth.Users.{Crypto, public_user, has_name, verify_password}
use homeinfra_control_center.Auth.Sessions.{
  cleanup_expired_sessions, is_alive, new_session, public_session, push_session, session_ttl,
}
use homeinfra_control_center.Auth.Operations.{
  LoginResult, Principal, has_token, login_mutate, resolve_principal_mutate, stamp_login,
}
use homeinfra_control_center.Auth.Requests.{login, handle}
use homeinfra_control_center.Auth.Invariant.{IsValid}
use homeinfra_control_center.Auth.Invariant.Steps.{handle-IsValid}
use homeinfra_control_center.Auth.Tokens.{resolve_principal-found, users_there}

module _ (crypto : Crypto) (c st i : ℕ) (n p t : Text) (s : State) where
  -- The state at the point where the session is issued.
  abbrev stamped : State
  stamped = stamp_login n (isoformat st) (cleanup_expired_sessions c s)

  abbrev pub issued : User → Session
  issued u = new_session crypto i u t stamped.sessions

  login_checks :
      {u : User} {r : LoginResult}
      → find (has_name n) (cleanup_expired_sessions c s).users ≡ some u
      → (login_mutate crypto c st i n p t s).0 ≡ ok r
      → (u.enabled ≡ true) × (verify_password crypto p u ≡ true)
  unfolding login_mutate
  login_checks found h = (ground arith, ground arith)

  login_known :
      {r : LoginResult}
      → (login_mutate crypto c st i n p t s).0 ≡ ok r
      → find (has_name n) (cleanup_expired_sessions c s).users ≢ none
  unfolding login_mutate
  login_known h absent = ground arith

  login_result :
      {u : User}
      → find (has_name n) (cleanup_expired_sessions c s).users ≡ some u
      → u.enabled ≡ true
      → verify_password crypto p u ≡ true
      → login_mutate crypto c st i n p t s ≡ (
        ok (record {
          bootstrap_required = none;
          user = public_user (record u { last_login_at = some (isoformat st) });
          token = t;
          session = public_session (issued u);
        }),
        push_session (issued u) stamped,
      )
  unfolding login_mutate
  login_result {u} found enabled verified =
      ground (arith, users_there (has_name n) {u = u} (cleanup_expired_sessions c s) found)

  -- A login that returns has found a user of that name who is enabled and whose stored hash is
  -- that of the password; it answers with the id of that user and the given token.
  pub login_authenticates :
      {r : LoginResult}
      → (login_mutate crypto c st i n p t s).0 ≡ ok r
      → (u : User) × (find (has_name n) s.users ≡ some u)
        × (u.enabled ≡ true)
        × (verify_password crypto p u ≡ true)
        × (r.user.id ≡ u.id)
        × (r.token ≡ t)
  unfolding cleanup_expired_sessions public_user
  login_authenticates {r} h = elim (Option-cases (find (has_name n) s.users)) [
    | inl absent ↦ absurd (login_known h absent)
    | inr (u, found) ↦
        let (enabled, verified) = login_checks found h in
        let result = login_result found enabled verified in
        (u, found, enabled, verified, ground (arith, h, result), ground (arith, h, result))
  ]

  -- The session in front of the list is the one that the token is looked up in.
  issued_carried :
      (later : ℕ) (u : User)
      → later < from_isoformat (isoformat (i + session_ttl))
      → find
          (has_token (crypto.sha256 t))
          (cleanup_expired_sessions later (push_session (issued u) stamped)).sessions
        ≡ some (issued u)
  unfolding cleanup_expired_sessions push_session new_session is_alive
  issued_carried later u before = ground (
    arith,
    lt→ltb later (from_isoformat (isoformat (i + session_ttl))) before,
    ==_refl (crypto.sha256 t),
  )

  token_resolves :
      (later seen : ℕ) (u : User) {r : LoginResult}
      → IsValid s
      → (login_mutate crypto c st i n p t s).0 ≡ ok r
      → login_mutate crypto c st i n p t s ≡ (ok r, push_session (issued u) stamped)
      → later < from_isoformat (isoformat (i + session_ttl))
      → (q : Principal) × ((resolve_principal_mutate crypto later seen t
            (login_mutate crypto c st i n p t s).1).0
          ≡ ok q)
        × (q.session_id ≡ (issued u).id)
        × (q.user_id ≡ u.id)
  unfolding handle new_session
  token_resolves later seen u valid h result before =
      resolve_principal-found crypto later seen t (login_mutate crypto c st i n p t s).1 (issued u)
        (handle-IsValid crypto (login c st i n p t) s valid)
        (rw result (issued_carried later u before))

  answer_of :
      {u : User} {r : LoginResult}
      → find (has_name n) (cleanup_expired_sessions c s).users ≡ some u
      → (login_mutate crypto c st i n p t s).0 ≡ ok r
      → (login_mutate crypto c st i n p t s ≡ (ok r, push_session (issued u) stamped))
        × (r.session.id ≡ (issued u).id)
        × (r.user.id ≡ u.id)
  unfolding public_user public_session
  answer_of found h =
      let (enabled, verified) = login_checks found h in
      let result = login_result found enabled verified in
      (ground (arith, h, result), ground (arith, h, result), ground (arith, h, result))

  -- In a well-formed state the token that a login returned is answered, until the session
  -- expires, with the session and the user of that login; nothing is assumed of the hashes.
  pub login_token_resolves :
      (later seen : ℕ) {r : LoginResult}
      → IsValid s
      → (login_mutate crypto c st i n p t s).0 ≡ ok r
      → later < from_isoformat (isoformat (i + session_ttl))
      → (q : Principal) × ((resolve_principal_mutate crypto later seen t
            (login_mutate crypto c st i n p t s).1).0
          ≡ ok q)
        × (q.session_id ≡ r.session.id)
        × (q.user_id ≡ r.user.id)
  login_token_resolves later seen {r} valid h before =
      elim (Option-cases (find (has_name n) (cleanup_expired_sessions c s).users)) [
        | inl absent ↦ absurd (login_known h absent)
        | inr (u, found) ↦
            let (result, same_session, same_user) = answer_of found h in
            let (q, answered, session, user) = token_resolves later seen u valid h result before in
            (q, answered, session ∙ sym same_session, user ∙ sym same_user)
      ]
