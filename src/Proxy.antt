-- ===== src/Proxy.antt =====
-- The application of services/permission_proxy/main.py: its routes on one world. A request has passed
-- the framework's routing and validation; `Tick` is what the clocks and `uuid4` give to it, and
-- whether the database answers a ping.
pub mod Effects
pub mod Runs
pub mod Tables
pub mod Customers
pub mod Hosts
use tool_permission_enforcer.Base.{ℕ, String, Bool, Option, List, [], ◌∷◌}
use tool_permission_enforcer.Base.Outcome.{Result, ok, err, Exec, ◌>>=◌, pure, lift, gets}
use tool_permission_enforcer.Domain.Errors.{Error}
use tool_permission_enforcer.Settings.{PermissionProxySettings}
use tool_permission_enforcer.Security.Auth.{Principal}
use tool_permission_enforcer.Security.Claims.{TrustedSessionClaims}
use tool_permission_enforcer.Security.Jwt.{Jwt, KeyReply}
use tool_permission_enforcer.Security.TrustedSessions.{CreatedTrustedSession}
use tool_permission_enforcer.ToolCalls.{Env, Run, World, in_db}
use tool_permission_enforcer.Service.{
  ServiceConfig, ServiceInfo, HealthResponse, service_info, liveness, readiness,
}
use tool_permission_enforcer.Api.Errors.{Credentials, bearer_principal, answered}
use tool_permission_enforcer.Api.SessionRoutes.{
  IdentityResponse, CreateSessionRequest, RevokeSessionResponse, identity_me, create_session,
  validate_session, revoke_session,
}
use tool_permission_enforcer.Api.ToolRoutes.{ToolCallInput, ToolCallResponse, execute_tool_call}
use tool_permission_enforcer.Api.AuditRoutes
use tool_permission_enforcer.Api.AuditRoutes.{AuditRequest, AuditReply}

pub record Tick : Type 0 where
  pub now : ℕ
  pub session_hex : String
  pub jti_hex : String
  pub run : Run
  pub ping : Bool

-- The routes of the application, in the order in which it includes the routers.
pub data Request (Token : Type 0) : Type 0 where
  identity : Option (Credentials Token) → Request Token
  open_session : Option (Credentials Token) → CreateSessionRequest → Request Token
  check_session : Option (Credentials Token) → Token → Request Token
  end_session : Option (Credentials Token) → String → Request Token
  tool_call : ToolCallInput Token → Request Token
  audit : Option (Credentials Token) → AuditRequest → Request Token
  about : Request Token
  alive : Request Token
  ready : Request Token

pub data Reply (Token : Type 0) : Type 0 where
  identified : IdentityResponse → Reply Token
  created : CreatedTrustedSession Token → Reply Token
  validated : TrustedSessionClaims → Reply Token
  revoked : RevokeSessionResponse → Reply Token
  called : ToolCallResponse → Reply Token
  audited : AuditReply → Reply Token
  information : ServiceInfo → Reply Token
  health : ℕ → HealthResponse → Reply Token

module _ (jwt : Jwt) (settings : PermissionProxySettings) (provider : Option (jwt.Token → KeyReply))
    (config : ServiceConfig) (env : Env) where
  -- `authenticated_principal` of the security routes
  abbrev pub authenticated : Option (Credentials jwt.Token) → ℕ → Exec World Error Principal
  authenticated credentials now =
      lift (answered (bearer_principal jwt settings provider credentials now))

  unfoldable pub handle : Tick → Request jwt.Token → Exec World Error (Reply jwt.Token)
  handle t (identity credentials) = do
    principal ← authenticated credentials t.now
    found ← gets (λ w. identity_me principal w.db)
    response ← lift found
    pure (identified response)
  handle t (open_session credentials request) = do
    principal ← authenticated credentials t.now
    session ← in_db (create_session jwt settings request principal t.session_hex t.jti_hex t.now)
    pure (created session)
  handle t (check_session credentials session_token) = do
    principal ← authenticated credentials t.now
    claims ← in_db (validate_session jwt settings session_token principal t.now)
    pure (validated claims)
  handle t (end_session credentials session_id) = do
    principal ← authenticated credentials t.now
    response ← in_db (revoke_session session_id principal t.now)
    pure (revoked response)
  handle t (tool_call input) = do
    response ← execute_tool_call jwt settings provider env input t.now t.run
    pure (called response)
  handle t (audit credentials request) = do
    found ← gets (λ w.
        AuditRoutes.handle env.isoformat env.digest jwt settings provider credentials t.now request
          w.db)
    reply ← lift found
    pure (audited reply)
  handle t about = pure (information (service_info config))
  handle t alive = pure (health 200 (liveness config t.now))
  handle t ready = let (code, body) = readiness config t.ping t.now in pure (health code body)

  -- The world after a series of requests, each answered before the next.
  unfoldable pub serve : List (Tick × Request jwt.Token) → World → World
  serve [] w = w
  serve ((t, request) ∷ rest) w = serve rest (handle t request w).1
