-- ===== src/Store/Agents.antt =====
-- `AgentRepository`
use tool_permission_enforcer.Base.{
  ℕ, String, Bool, ◌||◌, Option, [], ◌∷◌, ◌++◌, ◌==◌, string_eq, first_where, any, length,
}
use tool_permission_enforcer.Base.Outcome.{◌>>=◌, ◌>>◌, pure, raise_if, gets, modify}
use tool_permission_enforcer.Domain.Errors.{integrity_error}
use tool_permission_enforcer.Domain.Models.{Agent}
use tool_permission_enforcer.Store.{Db, Action}

-- `for_update` only locks the row.
unfoldable pub get : String → Db → Option Agent
get agent_id db = first_where (λ a. a.agent_id == agent_id) db.agents

unfoldable pub get_by_oidc_subject : String → Db → Option Agent
get_by_oidc_subject oidc_subject db = first_where (λ a. a.oidc_subject == oidc_subject) db.agents

abbrev clashes : Agent → Agent → Bool
clashes new old = old.agent_id == new.agent_id || old.oidc_subject == new.oidc_subject

unfoldable pub add : Agent → Action Agent
add agent = do
  raise_if (← gets (λ db. any (clashes agent) db.agents)) integrity_error
  modify (λ db. record db { agents = db.agents ++ (agent ∷ []) })
  pure agent

abbrev pub count : Db → ℕ
count db = length db.agents
