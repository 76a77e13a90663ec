-- ===== src/Auth/Sessions.antt =====
-- The part of homeinfra/auth.py that issues, drops and shows sessions.
use homeinfra_control_center.Prelude.{
  ℕ, ◌+◌, Bool, not, Option, none, some, List, ◌∷◌, map, Text, txt, ◌==◌, ltb, take, keep,
}
use homeinfra_control_center.Effects.{Action, gets, modify, pure, ◌>>=◌, ◌>>◌}
use homeinfra_control_center.Ids.{next_numbered_id}
use homeinfra_control_center.Model.State.{User, Session, State, isoformat, from_isoformat}
use homeinfra_control_center.Auth.Users.{Crypto}

abbrev pub max_sessions : ℕ
max_sessions = 500

-- `SESSION_TTL_SECONDS`, in microseconds.
abbrev pub session_ttl : ℕ
session_ttl = 604_800_000_000

-- `(_parse_timestamp(session.get("expires_at")) or now) > now`
unfoldable pub is_alive : ℕ → Session → Bool
is_alive now session = elim session.expires_at [
  | none ↦ ltb now now
  | some expires_at ↦ ltb now (from_isoformat expires_at)
]

unfoldable pub cleanup_expired_sessions : ℕ → State → State
unfolding is_alive
cleanup_expired_sessions now state = record state { sessions = keep (is_alive now) state.sessions }

abbrev pub of_user : Text → Session → Bool
of_user user_id session = session.user_id == user_id

abbrev pub has_session_id : Text → Session → Bool
has_session_id session_id session = session.id == session_id

unfoldable pub revoke_user_sessions : Text → State → State
revoke_user_sessions user_id state = record state {
  sessions = keep (λ s. not (of_user user_id s)) state.sessions;
}

unfoldable pub new_session : Crypto → ℕ → User → Text → List Session → Session
unfolding next_numbered_id
new_session crypto now user token sessions = record {
  id = next_numbered_id (txt "sess") (map (λ s. s.id) sessions);
  user_id = user.id;
  token_hash = crypto.sha256 token;
  created_at = isoformat now;
  last_seen_at = isoformat now;
  expires_at = some (isoformat (now + session_ttl));
}

-- The new session stands in front, and the list is cut at `MAX_SESSIONS`.
unfoldable pub push_session : Session → State → State
push_session session state = record state {
  sessions = take max_sessions (session ∷ state.sessions);
}

unfoldable pub issue_session : Crypto → ℕ → User → Text → Action State Session
issue_session crypto now user token = do
  session ← gets (λ state. new_session crypto now user token state.sessions)
  modify (push_session session)
  pure session

-- What `_public_session` shows: the token's hash stays inside.
pub record PublicSession : Type 0 where
  pub id : Text
  pub created_at : ℕ
  pub last_seen_at : ℕ
  pub expires_at : Option ℕ

unfoldable pub public_session : Session → PublicSession
public_session session = record {
  id = session.id;
  created_at = session.created_at;
  last_seen_at = session.last_seen_at;
  expires_at = session.expires_at;
}
