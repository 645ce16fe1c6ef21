-- ===== src/Api/SessionRoutes.antt =====
-- services/permission_proxy/api/security_routes.py. The requests have passed the framework's
-- validation; `principal` is what `authenticated_principal` returned.
pub mod Tables
pub mod Hosts
pub mod Bounds
use tool_permission_enforcer.Base.{
  ℕ, String, Bool, not, Option, none, some, List, [], ◌∷◌, ◌==◌, string_eq, contains, order_by,
  if◌then◌else◌,
}
use tool_permission_enforcer.Base.Outcome.{Result, ok, err, ◌>>=◌, ◌>>◌, pure, raise_if, lift, gets}
use tool_permission_enforcer.Base.Text.{leb_text}
use tool_permission_enforcer.Domain.Enums.{agent_status_value, session_status_value}
use tool_permission_enforcer.Domain.Errors.{Error, authorization_error}
use tool_permission_enforcer.Domain.Models.{Datetime}
use tool_permission_enforcer.Store.{Db, Action}
use tool_permission_enforcer.Settings.{PermissionProxySettings}
use tool_permission_enforcer.Security.Auth.{Principal, require_scopes, resolve_active_agent}
use tool_permission_enforcer.Security.Claims.{TrustedSessionClaims}
use tool_permission_enforcer.Security.Jwt.{Jwt}
use tool_permission_enforcer.Security.TrustedSessions.{
  CreatedTrustedSession, create, validate, revoke,
}
use tool_permission_enforcer.Api.Errors.{answered, http_error}

pub record IdentityResponse : Type 0 where
  pub subject : String
  pub token_use : String
  pub scopes : List String
  pub agent_id : Option String
  pub agent_status : Option String

pub record CreateSessionRequest : Type 0 where
  pub agent_id : String
  pub user_id : String
  pub customer_id : String
  pub ttl_seconds : Option ℕ

pub record RevokeSessionResponse : Type 0 where
  pub session_id : String
  pub status : String
  pub revoked_at : Option Datetime

abbrev identity : Principal → Option String → Option String → IdentityResponse
identity principal agent_id agent_status = record {
  subject = principal.subject;
  token_use = principal.token_use;
  scopes = order_by leb_text principal.scopes;
  agent_id = agent_id;
  agent_status = agent_status;
}

unfoldable pub identity_me : Principal → Db → Result Error IdentityResponse
identity_me principal db =
    if not (principal.token_use == "agent")
    then ok (identity principal none none)
    else elim (resolve_active_agent principal db) [
      | ok agent ↦
          ok (identity principal (some agent.agent_id) (some (agent_status_value agent.status)))
      | err e ↦ err (http_error e)
    ]

-- `try … except … raise`, for code that changes the database.
abbrev answering : {A : Type 0} → Action A → Action A
answering m db = let (r, db') = m db in (answered r, db')

abbrev pub is_trusted_host : Principal → Bool
is_trusted_host principal = contains ("host" ∷ "admin" ∷ []) principal.token_use

abbrev require_trusted_host : Principal → Action (Unit {0})
require_trusted_host principal = raise_if (not (is_trusted_host principal)) (
    authorization_error "TRUSTED_HOST_TOKEN_REQUIRED"
      "A trusted host or administrator token is required")

module _ (jwt : Jwt) (settings : PermissionProxySettings) where
  -- The response has the fields of what the service returned.
  unfoldable pub create_session :
      CreateSessionRequest
      → Principal
      → String
      → String
      → ℕ
      → Action (CreatedTrustedSession jwt.Token)
  create_session request principal session_hex jti_hex now = answering (do
    require_trusted_host principal
    lift (require_scopes principal ("session:create" ∷ []))
    create jwt settings
        (record {
          agent_id = request.agent_id;
          user_id = request.user_id;
          customer_id = request.customer_id;
          created_by_subject = principal.subject;
          ttl_seconds = request.ttl_seconds;
        })
        session_hex jti_hex now)

  unfoldable pub validate_session : jwt.Token → Principal → ℕ → Action TrustedSessionClaims
  validate_session session_token principal now = answering (do
    lift (require_scopes principal ("tool:invoke" ∷ []))
    found ← gets (resolve_active_agent principal)
    agent ← lift found
    validate jwt settings session_token agent.agent_id now)

unfoldable pub revoke_session : String → Principal → ℕ → Action RevokeSessionResponse
revoke_session session_id principal now = answering (do
  require_trusted_host principal
  lift (require_scopes principal ("session:revoke" ∷ []))
  s ← revoke session_id now
  pure (record {
    session_id = s.session_id;
    status = session_status_value s.status;
    revoked_at = s.revoked_at;
  }))
