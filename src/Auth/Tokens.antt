-- ===== src/Auth/Tokens.antt =====
-- What a bearer token gives: who is admitted, that a login's token is, and what ends a session.
use homeinfra_control_center.Prelude.{
  ℕ, ◌≤◌, ◌<◌, ◌≡◌, ◌≢◌, refl, Bool, true, false, not, some, List, [], ◌∷◌, Text, txt, ◌==◌, ==_iff,
  arith, nat_eq, length, ◌++◌, count, find, keep, sym, subst, inl, inr, Option-cases, Bool-cases,
  All,
}
use homeinfra_control_center.Prelude.Counting.{
  count-append, find-holds, All-find, All-keep, count_weaken,
}
use homeinfra_control_center.Errors.{ok}
use homeinfra_control_center.Model.State.{isoformat, User, Session, State}
use homeinfra_control_center.Auth.Users.{Crypto, hash_password, PublicUser, has_id}
use homeinfra_control_center.Auth.Sessions.{
  cleanup_expired_sessions, has_session_id, is_alive, of_user, revoke_user_sessions,
}
use homeinfra_control_center.Auth.Operations.{
  change_user, set_password, Principal, drop_session, has_no_users, has_token, logout_mutate,
  reset_password_mutate, resolve_principal_mutate, change_user,
}
use homeinfra_control_center.Auth.Invariant.{IsValid, is_owner}

no_owner : (k : Text) (users : List User) → count (is_owner k) users ≤ count (has_id k) users
no_owner k users = count_weaken (is_owner k) (has_id k) users (λ u h. ground arith)

-- Where some user with the id is enabled and ids are unique, the search by id finds that user.
owner-found :
    (k : Text) (users : List User)
    → count (has_id k) users ≤ 1
    → 0 < count (is_owner k) users
    → (u : User) × (find (has_id k) users ≡ some u) × (u.enabled ≡ true)
owner-found k [] unique owner = absurd (omega arith)
owner-found k (u ∷ users) unique owner = elim (Bool-cases (u.id == k)) [
  | inl here ↦ (u, ground arith, ground (arith, no_owner k users))
  | inr there ↦
      let (v, found, enabled) = owner-found k users (ground arith) (ground arith) in
      (v, ground arith, enabled)
]

-- An answer names a live session that carries the token, and its user, who is enabled.
pub record Admits (crypto : Crypto) (now : ℕ) (token : Text) (s : State) (p : Principal)
    : Type 0 where
  pub session : Session
  pub user : User
  pub carried :
      find (has_token (crypto.sha256 token)) (cleanup_expired_sessions now s).sessions
      ≡ some session
  pub alive : is_alive now session ≡ true
  pub owner : find (has_id session.user_id) s.users ≡ some user
  pub enabled : user.enabled ≡ true
  pub names : (p.user_id ≡ user.id) × (p.role ≡ user.role) × (p.session_id ≡ session.id)

cleaned-alive :
    (now : ℕ) (xs : List Session) → All (λ x. is_alive now x ≡ true) (keep (is_alive now) xs)
cleaned-alive now [] = tt
cleaned-alive now (x ∷ xs) = ground (arith, cleaned-alive now xs)

module _ (crypto : Crypto) (c seen : ℕ) (token : Text) (s : State) where
  abbrev cleaned : State
  cleaned = cleanup_expired_sessions c s

  found_alive :
      {x : Session}
      → find (has_token (crypto.sha256 token)) cleaned.sessions ≡ some x
      → is_alive c x ≡ true
  unfolding cleanup_expired_sessions
  found_alive found =
      All-find (λ x. is_alive c x ≡ true) (has_token (crypto.sha256 token))
        (keep (is_alive c) s.sessions) (cleaned-alive c s.sessions) found

  -- A principal is only returned for a session that carries the token, is alive, and belongs to
  -- an enabled user; it names that session, that user and the role of the user.
  pub resolve_principal-Admits :
      {p : Principal}
      → (resolve_principal_mutate crypto c seen token s).0 ≡ ok p
      → Admits crypto c token s p
  unfolding resolve_principal_mutate cleanup_expired_sessions
  resolve_principal-Admits {p} h =
      elim (Option-cases (find (has_token (crypto.sha256 token)) cleaned.sessions)) [
        | inl absent ↦ absurd (ground arith)
        | inr (x, found) ↦ elim (Option-cases (find (has_id x.user_id) s.users)) [
          | inl absent ↦ absurd (ground arith)
          | inr (u, owner) ↦ record {
            session = x;
            user = u;
            carried = found;
            alive = found_alive found;
            owner = owner;
            enabled = ground arith;
            names = (ground arith, ground arith, ground arith);
          }
        ]
      ]

some-length :
    (q : User → Bool) {u : User} (users : List User)
    → find q users ≡ some u
    → nat_eq (length users) 0 ≡ false
some-length q [] e = cc
some-length q (v ∷ users) e = ground arith

kept-holds :
    (q : Session → Bool) (xs : List Session) → All (λ x. q x ≡ false) (keep (λ x. not (q x)) xs)
kept-holds q [] = tt
kept-holds q (x ∷ xs) = elim (Bool-cases (q x)) [
  | inl hit ↦ rw hit (kept-holds q xs)
  | inr miss ↦ rw miss (miss, kept-holds q xs)
]

pub users_there :
    (q : User → Bool) {u : User} (s : State) → find q s.users ≡ some u → has_no_users s ≡ false
unfolding has_no_users
users_there q s found = some-length q s.users found

principal_of : User → Session → Principal
principal_of user session = record {
  user_id = user.id;
  username = user.username;
  role = user.role;
  subject = txt "user:" ++ user.username;
  auth_scheme = txt "bearer";
  session_id = session.id;
  session_expires_at = session.expires_at;
}

-- The first live session that carries the token is admitted.
pub resolve_principal-found :
    (crypto : Crypto) (c seen : ℕ) (token : Text) (s : State) (x : Session)
    → IsValid s
    → find (has_token (crypto.sha256 token)) (cleanup_expired_sessions c s).sessions ≡ some x
    → (p : Principal) × ((resolve_principal_mutate crypto c seen token s).0 ≡ ok p)
      × (p.session_id ≡ x.id)
      × (p.user_id ≡ x.user_id)
unfolding resolve_principal_mutate cleanup_expired_sessions IsValid principal_of
resolve_principal-found crypto c seen token s x valid found =
    let owned =
      All-find (λ (y : Session). 0 < count (is_owner y.user_id) s.users)
        (has_token (crypto.sha256 token)) (keep (is_alive c) s.sessions)
        (All-keep (λ (y : Session). 0 < count (is_owner y.user_id) s.users) (is_alive c) s.sessions
          valid.1.owned)
        found in
    let (u, owner, enabled) = owner-found x.user_id s.users (valid.0.ids x.user_id) owned in
    (
      principal_of u x,
      ground (arith, users_there (has_id x.user_id) {u = u} (cleanup_expired_sessions c s) owner),
      refl,
      (==_iff u.id x.user_id).0 (find-holds (has_id x.user_id) s.users owner),
    )

-- A live session that alone carries the token is the one that is found.
find-live :
    (c : ℕ) (q : Session → Bool) (front back : List Session) (x : Session)
    → count q front ≡ 0
    → is_alive c x ≡ true
    → q x ≡ true
    → find q (keep (is_alive c) (front ++ (x ∷ back))) ≡ some x
find-live c q [] back x none_before alive carries = ground arith
find-live c q (y ∷ front) back x none_before alive carries =
    ground (arith, find-live c q front back x)

-- In a well-formed state a live session whose token no other session carries is admitted by
-- that token, with its own id and that of its user.
pub resolve_principal_total :
    (crypto : Crypto) (c seen : ℕ) (token : Text) (s : State) (front back : List Session)
    (x : Session)
    → IsValid s
    → s.sessions ≡ front ++ (x ∷ back)
    → is_alive c x ≡ true
    → has_token (crypto.sha256 token) x ≡ true
    → count (has_token (crypto.sha256 token)) s.sessions ≤ 1
    → (p : Principal) × ((resolve_principal_mutate crypto c seen token s).0 ≡ ok p)
      × (p.session_id ≡ x.id)
      × (p.user_id ≡ x.user_id)
unfolding cleanup_expired_sessions
resolve_principal_total crypto c seen token s front back x valid stored alive carries alone =
    let q = has_token (crypto.sha256 token) in
    let none_before : count q front ≡ 0 =
      ground (arith, subst (λ xs. count q xs ≤ 1) stored alone, count-append q front (x ∷ back)) in
    resolve_principal-found crypto c seen token s x valid (
      subst (λ xs. find q (keep (is_alive c) xs) ≡ some x) (sym stored)
        (find-live c q front back x none_before alive carries))

-- A test that fails on every session fails on the one that carries the token.
carried-holds :
    (crypto : Crypto) (c : ℕ) (token : Text) (q : Session → Bool) (s : State) {x : Session}
    → All (λ y. q y ≡ false) s.sessions
    → find (has_token (crypto.sha256 token)) (cleanup_expired_sessions c s).sessions ≡ some x
    → q x ≡ false
unfolding cleanup_expired_sessions
carried-holds crypto c token q s none_holds carried =
    All-find (λ y. q y ≡ false) (has_token (crypto.sha256 token)) (keep (is_alive c) s.sessions)
      (All-keep (λ y. q y ≡ false) (is_alive c) s.sessions none_holds) carried

revoked-holds :
    (k user_id : Text) (s : State)
    → k ≡ user_id
    → All (λ x. of_user user_id x ≡ false) (revoke_user_sessions k s).sessions
unfolding revoke_user_sessions
revoked-holds k user_id s same =
    subst (λ i. All (λ x. of_user user_id x ≡ false) (keep (λ x. not (of_user i x)) s.sessions))
      (sym same) (kept-holds (of_user user_id) s.sessions)

reset_state :
    (crypto : Crypto) (salt : Text) (now : ℕ) (user_id password : Text) (s : State) {r : PublicUser}
    → (reset_password_mutate crypto salt now user_id password s).0 ≡ ok r
    → (k : Text) × (t : State) × (k ≡ user_id)
      × ((reset_password_mutate crypto salt now user_id password s).1 ≡ revoke_user_sessions k t)
unfolding reset_password_mutate
reset_state crypto salt now user_id password s h =
    elim (Option-cases (find (has_id user_id) s.users)) [
      | inl absent ↦ absurd (ground arith)
      | inr (u, found) ↦ (
        u.id,
        change_user user_id (set_password (hash_password crypto password salt) (isoformat now)) s,
        (==_iff u.id user_id).0 (find-holds (has_id user_id) s.users found),
        ground arith,
      )
    ]

reset-sessions :
    (crypto : Crypto) (salt : Text) (now : ℕ) (user_id password : Text) (s : State) {r : PublicUser}
    → (reset_password_mutate crypto salt now user_id password s).0 ≡ ok r
    → All
        (λ x. of_user user_id x ≡ false)
        (reset_password_mutate crypto salt now user_id password s).1.sessions
reset-sessions crypto salt now user_id password s h =
    let (k, t, same, state) = reset_state crypto salt now user_id password s h in
    rw state (revoked-holds k user_id t same)

-- After a logout no token gives a principal with the session that was logged out.
pub logout_revokes :
    (crypto : Crypto) (c seen : ℕ) (token session_id : Text) (s : State) {p : Principal}
    → (resolve_principal_mutate crypto c seen token (logout_mutate session_id s).1).0 ≡ ok p
    → p.session_id ≢ session_id
unfolding logout_mutate drop_session
logout_revokes crypto c seen token session_id s {p} h =
    let a = resolve_principal-Admits crypto c seen token (logout_mutate session_id s).1 h in
    let kept =
      carried-holds crypto c token (has_session_id session_id) (logout_mutate session_id s).1
        (kept-holds (has_session_id session_id) s.sessions) a.carried in
    λ same. ground (arith, kept, a.names.2, ==_iff a.session.id session_id)

-- After a password reset that returned, no token gives a principal of that user.
pub reset_password_revokes :
    (crypto : Crypto) (salt : Text) (now c seen : ℕ) (user_id password token : Text) (s : State)
    {r : PublicUser} {p : Principal}
    → (reset_password_mutate crypto salt now user_id password s).0 ≡ ok r
    → (resolve_principal_mutate crypto c seen token
        (reset_password_mutate crypto salt now user_id password s).1).0
      ≡ ok p
    → p.user_id ≢ user_id
reset_password_revokes crypto salt now c seen user_id password token s {r} {p} done h =
    let s' = (reset_password_mutate crypto salt now user_id password s).1 in
    let a = resolve_principal-Admits crypto c seen token s' h in
    let kept =
      carried-holds crypto c token (of_user user_id) s'
        (reset-sessions crypto salt now user_id password s done) a.carried in
    λ same. ground (
      arith,
      kept,
      a.names.0,
      find-holds (has_id a.session.user_id) s'.users a.owner,
      ==_iff a.session.user_id user_id,
      ==_iff a.user.id a.session.user_id,
    )
