-- ===== src/Store/Sessions.antt =====
-- `SessionRepository`
pub mod Rows
use tool_permission_enforcer.Base.{
  ℕ, String, Bool, true, false, ◌||◌, Option, none, some, List, [], ◌∷◌, ◌++◌, ◌==◌, map, leb,
  string_eq, first_where, any, length, if◌then◌else◌,
}
use tool_permission_enforcer.Base.Outcome.{◌>>=◌, ◌>>◌, pure, raise_if, gets, modify}
use tool_permission_enforcer.Domain.Errors.{integrity_error}
use tool_permission_enforcer.Domain.Models.{AgentSession, as_utc}
use tool_permission_enforcer.Store.{Db, Action}
use tool_permission_enforcer.Store.Agents

unfoldable pub get : String → Db → Option AgentSession
get session_id db = first_where (λ s. s.session_id == session_id) db.sessions

unfoldable pub get_by_jti : String → Db → Option AgentSession
get_by_jti token_jti db = first_where (λ s. s.token_jti == token_jti) db.sessions

abbrev pub clashes : AgentSession → AgentSession → Bool
clashes new old = old.session_id == new.session_id || old.token_jti == new.token_jti

unfoldable pub add : AgentSession → Action AgentSession
add s = do
  raise_if (leb (as_utc s.expires_at) (as_utc s.created_at)) integrity_error
  raise_if (← gets (λ db. any (clashes s) db.sessions)) integrity_error
  agent ← gets (Agents.get s.agent_id)
  raise_if (elim agent [ none ↦ true | some a ↦ false ]) integrity_error
  modify (λ db. record db { sessions = db.sessions ++ (s ∷ []) })
  pure s

-- What a flush writes to the row of a changed object.
abbrev pub write : String → AgentSession → List AgentSession → List AgentSession
write session_id new = map (λ s. if s.session_id == session_id then new else s)

abbrev pub save : AgentSession → Action (Unit {0})
save s = modify (λ db. record db { sessions = write s.session_id s db.sessions })

abbrev pub count : Db → ℕ
count db = length db.sessions
