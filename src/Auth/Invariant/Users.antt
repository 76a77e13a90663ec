-- ===== src/Auth/Invariant/Users.antt =====
-- How the list of users keeps its part of the invariant: appending a fresh user, sorting, and
-- changing one user.
use homeinfra_control_center.Prelude.{
  ℕ, ◌≤◌, ◌<◌, ◌≡◌, refl, ◌⊎◌, inl, inr, Bool, true, false, some, List, [], ◌∷◌, ◌++◌, Text, ◌==◌,
  ==_iff, arith, length, count, find, change_first, sort, Bool-cases, ap,
}
use homeinfra_control_center.Prelude.Counting.{
  count-append, count-sort, count-change_first, count-change_first_same, count_weaken,
  length-change_first,
}
use homeinfra_control_center.Model.State.{User, State}
use homeinfra_control_center.Auth.Users.{casefold, has_name, has_id, is_enabled_admin}
use homeinfra_control_center.Auth.Operations.{UserUpdates, would_orphan, apply_updates}
use homeinfra_control_center.Auth.Invariant.{UsersValid}

has_name_agree :
    (j k : Text) (u v : User)
    → has_name j u ≡ true
    → has_name k u ≡ true
    → has_name j v ≡ true
    → has_name k v ≡ true
unfolding has_name
has_name_agree j k u v a b c = ground (
  arith,
  ==_iff (casefold u.username) (casefold j),
  ==_iff (casefold u.username) (casefold k),
  ==_iff (casefold v.username) (casefold j),
  ==_iff (casefold v.username) (casefold k),
)

has_name_self : (u : User) → has_name u.username u ≡ true
unfolding has_name
has_name_self u = (==_iff (casefold u.username) (casefold u.username)).1 refl

count_names :
    (k : Text) (u : User) (users : List User)
    → has_name k u ≡ true
    → count (has_name k) users ≤ count (has_name u.username) users
count_names k u users h =
    count_weaken (has_name k) (has_name u.username) users
      (λ v. has_name_agree k u.username u v h (has_name_self u))

count_ids :
    (k : Text) (u : User) (users : List User)
    → (u.id == k) ≡ true
    → count (has_id k) users ≤ count (has_id u.id) users
count_ids k u users h =
    count_weaken (has_id k) (has_id u.id) users
      (λ v e. ground (arith, ==_iff u.id k, ==_iff v.id k, ==_iff v.id u.id))

module _ (u : User) (users : List User) (valid : UsersValid users) where
  pub append-UsersValid :
      count (has_id u.id) users ≡ 0
      → count (has_name u.username) users ≡ 0
      → ((is_enabled_admin u ≡ true) ⊎ (0 < length users))
      → UsersValid (users ++ (u ∷ []))
  append-UsersValid fresh_id fresh_name admin = record {
    ids = λ k. elim (Bool-cases (u.id == k)) [
      | inl same ↦ ground (arith, count-append (has_id k) users (u ∷ []), count_ids k u users same)
      | inr other ↦ ground (arith, count-append (has_id k) users (u ∷ []), valid.ids k)
    ];
    names = λ k. elim (Bool-cases (has_name k u)) [
      | inl same ↦
          ground (arith, count-append (has_name k) users (u ∷ []), count_names k u users same)
      | inr other ↦ ground (arith, count-append (has_name k) users (u ∷ []), valid.names k)
    ];
    guarded = inr (ground (arith, count-append is_enabled_admin users (u ∷ []), valid.guarded));
  }

length-count : (users : List User) → count (λ _. true) users ≡ length users
length-count [] = refl
length-count (u ∷ users) = ground (arith, length-count users)

length-sort :
    (before : User → User → Bool) (users : List User) → length (sort before users) ≡ length users
length-sort before users = omega (
  arith,
  length-count users,
  length-count (sort before users),
  count-sort (λ (_ : User). true) before users,
)

pub sort-UsersValid :
    (before : User → User → Bool) (users : List User)
    → UsersValid users
    → UsersValid (sort before users)
sort-UsersValid before users valid = record {
  ids = λ k. ground (arith, count-sort (has_id k) before users, valid.ids k);
  names = λ k. ground (arith, count-sort (has_name k) before users, valid.names k);
  guarded =
      ground
        (arith, count-sort is_enabled_admin before users, length-sort before users, valid.guarded);
}

-- A change that keeps the id and the name of every user keeps their uniqueness.
module _ (q : User → Bool) (f : User → User) (users : List User) (valid : UsersValid users)
    (same_id : (u : User) → (f u).id ≡ u.id)
    (same_name : (u : User) → (f u).username ≡ u.username) where
  ids_kept : (k : Text) → count (has_id k) (change_first q f users) ≤ 1
  ids_kept k = ground (
    arith,
    count-change_first_same (has_id k) q f users (λ u. ap (λ i. i == k) (same_id u)),
    valid.ids k,
  )

  names_kept : (k : Text) → count (has_name k) (change_first q f users) ≤ 1
  unfolding has_name
  names_kept k = ground (
    arith,
    count-change_first_same (has_name k) q f users
        (λ u. ap (λ n. casefold n == casefold k) (same_name u)),
    valid.names k,
  )

  pub change-UsersValid :
      ((length users ≡ 0) ⊎ (0 < count is_enabled_admin (change_first q f users)))
      → UsersValid (change_first q f users)
  change-UsersValid guard = record {
    ids = ids_kept;
    names = names_kept;
    guarded = ground (arith, guard, length-change_first q f users);
  }

  pub change_same-UsersValid :
      ((u : User) → is_enabled_admin (f u) ≡ is_enabled_admin u)
      → UsersValid (change_first q f users)
  change_same-UsersValid same =
      change-UsersValid
        (ground (arith, count-change_first_same is_enabled_admin q f users same, valid.guarded))

-- The guard of `_update_user_mutate` keeps an enabled administrator.
pub update-guarded :
    (k : Text) (updates : UserUpdates) (now : ℕ) (u : User) (state : State)
    → find (has_id k) state.users ≡ some u
    → would_orphan updates u state ≡ false
    → 0 < count is_enabled_admin state.users
    → 0 < count is_enabled_admin (change_first (has_id k) (apply_updates updates now) state.users)
unfolding would_orphan apply_updates
update-guarded k updates now u state found safe before = ground (
  arith,
  count-change_first is_enabled_admin (has_id k) (apply_updates updates now) {u = u} state.users
      found,
)
