-- ===== src/Auth/Requests.antt =====
-- The requests that reach the `_…_mutate` methods of homeinfra/auth.py, and the states that a
-- run of them reaches.
use homeinfra_control_center.Prelude.{ℕ, Bool, Text}
use homeinfra_control_center.Model.State.{State}
use homeinfra_control_center.Auth.Users.{Crypto}
use homeinfra_control_center.Auth.Operations.{
  UserUpdates, bootstrap_admin_mutate, login_mutate, logout_mutate, resolve_principal_mutate,
  create_user_mutate, update_user_mutate, reset_password_mutate,
}

-- The fields are the arguments of the methods, behind the times and the salt that they use.
pub data Request : Type 0 where
  bootstrap : (salt : Text) (built_at issued_at : ℕ) (username password token : Text) → Request
  login : (cleaned_at stamped_at issued_at : ℕ) (username password token : Text) → Request
  logout : (session_id : Text) → Request
  resolve : (cleaned_at seen_at : ℕ) (token : Text) → Request
  create : (salt : Text) (built_at : ℕ) (username password role : Text) (enabled : Bool) → Request
  update : (now : ℕ) (user_id : Text) (updates : UserUpdates) → Request
  reset : (salt : Text) (now : ℕ) (user_id password : Text) → Request

-- The state that a mutator leaves, also where it raises.
unfoldable pub handle : Crypto → Request → State → State
handle crypto (bootstrap salt b i n p t) s = (bootstrap_admin_mutate crypto salt b i n p t s).1
handle crypto (login c st i n p t) s = (login_mutate crypto c st i n p t s).1
handle crypto (logout session_id) s = (logout_mutate session_id s).1
handle crypto (resolve c seen token) s = (resolve_principal_mutate crypto c seen token s).1
handle crypto (create salt b n p r e) s = (create_user_mutate crypto salt b n p r e s).1
handle crypto (update now user_id updates) s = (update_user_mutate now user_id updates s).1
handle crypto (reset salt now user_id p) s = (reset_password_mutate crypto salt now user_id p s).1
