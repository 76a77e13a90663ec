-- ===== src/Auth/Invariant.antt =====
-- The well-formedness of users and sessions, and that each change of the state keeps it.
pub mod Users
pub mod Sessions
pub mod Changes
pub mod Steps
use homeinfra_control_center.Prelude.{
  ℕ, ◌≤◌, ◌<◌, ◌≡◌, ◌⊎◌, Bool, ◌&&◌, List, Text, ◌==◌, length, count, All,
}
use homeinfra_control_center.Model.State.{User, Session, State}
use homeinfra_control_center.Auth.Users.{has_name, has_id, is_enabled_admin}
use homeinfra_control_center.Auth.Sessions.{has_session_id, max_sessions}

-- An enabled user with the given id.
abbrev pub is_owner : Text → User → Bool
is_owner user_id user = user.id == user_id && user.enabled

-- No two users share an id or, up to case, a name, and once there are users one of them is an
-- enabled administrator.
pub record UsersValid (users : List User) : Type 0 where
  pub ids : (k : Text) → count (has_id k) users ≤ 1
  pub names : (k : Text) → count (has_name k) users ≤ 1
  pub guarded : (length users ≡ 0) ⊎ (0 < count is_enabled_admin users)

-- The list of sessions is bounded, no two share an id, and each belongs to an enabled user.
pub record SessionsValid (users : List User) (sessions : List Session) : Type 0 where
  pub bounded : length sessions ≤ max_sessions
  pub ids : (k : Text) → count (has_session_id k) sessions ≤ 1
  pub owned : All (λ x. 0 < count (is_owner x.user_id) users) sessions

unfoldable pub IsValid : State → Type 0
IsValid state = UsersValid state.users × SessionsValid state.users state.sessions
