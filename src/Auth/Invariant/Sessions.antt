-- ===== src/Auth/Invariant/Sessions.antt =====
-- How the list of sessions keeps its part of the invariant, also when the users change under it.
use homeinfra_control_center.Prelude.{
  ℕ, ◌≤◌, ◌<◌, ◌≡◌, Bool, true, false, not, some, List, ◌∷◌, Text, ◌==◌, ==_iff, arith, count, find,
  take, keep, change_first, Bool-cases, inl, inr, ap, subst, sym,
}
use homeinfra_control_center.Prelude.Counting.{
  count-take, count-keep, count-change_first, count-change_first_same, count-change_first_other,
  length-change_first, length-take, length-keep, All-take, All-keep, All-keep_with,
  All-change_first, All-weaken,
}
use homeinfra_control_center.Model.State.{User, Session}
use homeinfra_control_center.Auth.Users.{has_id}
use homeinfra_control_center.Auth.Sessions.{has_session_id, of_user, max_sessions}
use homeinfra_control_center.Auth.Operations.{UserUpdates, apply_updates}
use homeinfra_control_center.Auth.Invariant.{SessionsValid, is_owner}

abbrev IsOwned : List User → Session → Type 0
IsOwned users x = 0 < count (is_owner x.user_id) users

module _ (users : List User) (sessions : List Session) (valid : SessionsValid users sessions) where
  pub keep-SessionsValid : (q : Session → Bool) → SessionsValid users (keep q sessions)
  keep-SessionsValid q = record {
    bounded = omega (arith, length-keep {0} q sessions, valid.bounded);
    ids = λ k. omega (arith, count-keep {0} (has_session_id k) q sessions, valid.ids k);
    owned = All-keep (IsOwned users) q sessions valid.owned;
  }

  pub push-SessionsValid :
      (x : Session)
      → count (has_session_id x.id) sessions ≡ 0
      → 0 < count (is_owner x.user_id) users
      → SessionsValid users (take max_sessions (x ∷ sessions))
  push-SessionsValid x fresh owner = record {
    bounded = length-take max_sessions (x ∷ sessions);
    ids = λ k. elim (Bool-cases (x.id == k)) [
      | inl same ↦
          let e : x.id ≡ k = (==_iff x.id k).0 same in
          ground (
            arith,
            count-take (has_session_id k) max_sessions (x ∷ sessions),
            subst (λ i. count (has_session_id i) sessions ≡ 0) e fresh,
          )
      | inr other ↦
          ground (arith, count-take (has_session_id k) max_sessions (x ∷ sessions), valid.ids k)
    ];
    owned = All-take (IsOwned users) max_sessions (x ∷ sessions) (owner, valid.owned);
  }

  pub change-SessionsValid :
      (q : Session → Bool) (f : Session → Session)
      → ((x : Session) → (f x).id ≡ x.id)
      → ((x : Session) → (f x).user_id ≡ x.user_id)
      → SessionsValid users (change_first q f sessions)
  change-SessionsValid q f same_id same_user = record {
    bounded = omega (arith, length-change_first {0} q f sessions, valid.bounded);
    ids = λ k. omega (
      arith,
      count-change_first_same {0} (has_session_id k) q f sessions
          (λ x. ap (λ i. i == k) (same_id x)),
      valid.ids k,
    );
    owned =
        All-change_first (IsOwned users) q f sessions
          (λ x p _. subst (λ i. 0 < count (is_owner i) users) (sym (same_user x)) p) valid.owned;
  }

  -- The users may change, as long as no owner is lost.
  pub users-SessionsValid :
      (users' : List User)
      → ((k : Text) → count (is_owner k) users ≤ count (is_owner k) users')
      → SessionsValid users' sessions
  users-SessionsValid users' kept = record {
    bounded = valid.bounded;
    ids = valid.ids;
    owned =
        All-weaken (IsOwned users) (IsOwned users') sessions (λ x p. omega (arith, kept x.user_id))
          valid.owned;
  }

  -- A user may lose the account if its sessions are revoked.
  pub revoked-SessionsValid :
      (users' : List User) (user_id : Text)
      → ((k : Text) → (k == user_id) ≡ false → count (is_owner k) users ≤ count (is_owner k) users')
      → SessionsValid users' (keep (λ x. not (of_user user_id x)) sessions)
  revoked-SessionsValid users' user_id kept = record {
    bounded = omega (arith, length-keep {0} (λ x. not (of_user user_id x)) sessions, valid.bounded);
    ids = λ k. omega (
      arith,
      count-keep {0} (has_session_id k) (λ x. not (of_user user_id x)) sessions,
      valid.ids k,
    );
    owned =
        All-keep_with (IsOwned users) (IsOwned users') (λ x. not (of_user user_id x)) sessions
          (λ x p other. ground (arith, kept x.user_id)) valid.owned;
  }

-- An update that leaves the user enabled loses no owner.
pub update_enabled-owners :
    (user_id k : Text) (updates : UserUpdates) (now : ℕ) (u : User) (users : List User)
    → find (has_id user_id) users ≡ some u
    → (apply_updates updates now u).enabled ≡ true
    → count (is_owner k) users
      ≤ count (is_owner k) (change_first (has_id user_id) (apply_updates updates now) users)
unfolding apply_updates
update_enabled-owners user_id k updates now u users found enabled = ground (
  arith,
  count-change_first (is_owner k) (has_id user_id) (apply_updates updates now) {u = u} users found,
)

-- No update touches the other users.
pub update-other_owners :
    (user_id k : Text) (f : User → User) (users : List User)
    → ((u : User) → (f u).id ≡ u.id)
    → (k == user_id) ≡ false
    → count (is_owner k) users ≤ count (is_owner k) (change_first (has_id user_id) f users)
update-other_owners user_id k f users same other = ground (
  arith,
  count-change_first_other (is_owner k) (has_id user_id) f users (λ u h.
      ground
        (arith, same u, ==_iff u.id user_id, ==_iff u.id k, ==_iff (f u).id k, ==_iff k user_id)),
)
