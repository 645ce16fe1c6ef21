-- ===== src/Api/SessionRoutes/Tables.antt =====
-- What the session routes write: the sessions, and no other table.
use tool_permission_enforcer.Base.{ℕ, String, ◌≡◌, inl, inr, arith, string_eq}
use tool_permission_enforcer.Base.Outcome.{Result-cases}
use tool_permission_enforcer.Store.{Db}
use tool_permission_enforcer.Store.Sessions
use tool_permission_enforcer.Settings.{PermissionProxySettings}
use tool_permission_enforcer.Security.Auth.{Principal, resolve_active_agent}
use tool_permission_enforcer.Security.Jwt.{Jwt}
use tool_permission_enforcer.Security.TrustedSessions.{NewSession, create, revoke}
use tool_permission_enforcer.Security.TrustedSessions.Live.{validate-reads}
use tool_permission_enforcer.Api.SessionRoutes.{
  CreateSessionRequest, create_session, validate_session, revoke_session,
}

-- Every table but the sessions.
pub record OnlySessions (db db' : Db) : Type 0 where
  pub agents : db'.agents ≡ db.agents
  pub tools : db'.tools ≡ db.tools
  pub manifests : db'.manifests ≡ db.manifests
  pub events : db'.events ≡ db.events
  pub customers : db'.customers ≡ db.customers

module _ (jwt : Jwt) (settings : PermissionProxySettings) where
  create-OnlySessions :
      (new : NewSession) (session_hex jti_hex : String) (now : ℕ) (db : Db)
      → OnlySessions db (create jwt settings new session_hex jti_hex now db).1
  unfolding create Sessions.add
  create-OnlySessions new session_hex jti_hex now db = record {
    agents = ground arith;
    tools = ground arith;
    manifests = ground arith;
    events = ground arith;
    customers = ground arith;
  }

  pub create_session-OnlySessions :
      (request : CreateSessionRequest) (principal : Principal) (session_hex jti_hex : String)
      (now : ℕ) (db : Db)
      → OnlySessions db (create_session jwt settings request principal session_hex jti_hex now db).1
  unfolding create_session
  create_session-OnlySessions request principal session_hex jti_hex now db =
      let new : NewSession = record {
        agent_id = request.agent_id;
        user_id = request.user_id;
        customer_id = request.customer_id;
        created_by_subject = principal.subject;
        ttl_seconds = request.ttl_seconds;
      } in
      let kept = create-OnlySessions new session_hex jti_hex now db in
      record {
        agents = ground (arith, kept.agents);
        tools = ground (arith, kept.tools);
        manifests = ground (arith, kept.manifests);
        events = ground (arith, kept.events);
        customers = ground (arith, kept.customers);
      }

  pub validate_session-reads :
      (token : jwt.Token) (principal : Principal) (now : ℕ) (db : Db)
      → (validate_session jwt settings token principal now db).1 ≡ db
  unfolding validate_session
  validate_session-reads token principal now db =
      elim (Result-cases (resolve_active_agent principal db)) [
        | inr (e, failed) ↦ ground arith
        | inl (agent, found) ↦
            ground (arith, validate-reads jwt settings token agent.agent_id now db)
      ]

pub revoke_session-OnlySessions :
    (session_id : String) (principal : Principal) (now : ℕ) (db : Db)
    → OnlySessions db (revoke_session session_id principal now db).1
unfolding revoke_session revoke
revoke_session-OnlySessions session_id principal now db = record {
  agents = ground arith;
  tools = ground arith;
  manifests = ground arith;
  events = ground arith;
  customers = ground arith;
}
