-- ===== src/Auth.antt =====
-- homeinfra/auth.py: users, sessions, permissions and the limit on failed logins. The children
-- are the parts of the file; `Auth.Operations` gathers the methods that change the state.
pub mod Validation
pub mod Access
pub mod Users
pub mod Sessions
pub mod Operations
pub mod Requests
pub mod Limiter
pub mod Tokens
pub mod Logins
pub mod Invariant
