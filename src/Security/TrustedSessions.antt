-- ===== src/Security/TrustedSessions.antt =====
-- `TrustedSessionService` of security/sessions.py. Instants are in microseconds; what `uuid4` and the
-- clock return are arguments.
pub mod Codec
pub mod Live
pub mod Revoked
pub mod RoundTrip
use Prim.Native.String.{◌++◌ as ◌<>◌}
use tool_permission_enforcer.Base.{
  ℕ, ◌+◌, ◌*◌, String, Bool, true, not, ◌&&◌, ◌||◌, Option, none, some, ◌==◌, string_eq, leb, ltb,
  if◌then◌else◌,
}
use tool_permission_enforcer.Base.Outcome.{◌>>=◌, ◌>>◌, pure, raise, raise_if, gets, lift, or_raise}
use tool_permission_enforcer.Domain.Enums.{
  SessionStatus, agent_is_active, session_is_active, session_is_revoked,
}
use tool_permission_enforcer.Domain.Errors.{Error, trusted_session_error}
use tool_permission_enforcer.Domain.Models.{Agent, AgentSession, aware, as_utc}
use tool_permission_enforcer.Store.{Db, Action, transaction}
use tool_permission_enforcer.Store.Agents
use tool_permission_enforcer.Store.Sessions
use tool_permission_enforcer.Settings.{PermissionProxySettings}
use tool_permission_enforcer.Security.Claims.{TrustedSessionClaims}
use tool_permission_enforcer.Security.Jwt.{Jwt}

pub record CreatedTrustedSession (Token : Type 0) : Type 0 where
  pub session_id : String
  pub session_token : Token
  pub agent_id : String
  pub user_id : String
  pub customer_id : String
  pub expires_at : ℕ

-- What the caller of `create` passes.
pub record NewSession : Type 0 where
  pub agent_id : String
  pub user_id : String
  pub customer_id : String
  pub created_by_subject : String
  pub ttl_seconds : Option ℕ

abbrev ttl_of : PermissionProxySettings → Option ℕ → ℕ
ttl_of settings none = settings.session_token_ttl_seconds
ttl_of settings (some ttl) = ttl

abbrev pub requested_ttl : PermissionProxySettings → NewSession → ℕ
requested_ttl settings new = ttl_of settings new.ttl_seconds

-- The row that `create` adds, with the two values of `uuid4().hex`.
unfoldable pub new_session :
    PermissionProxySettings → NewSession → String → String → ℕ → AgentSession
new_session settings new session_hex jti_hex now = record {
  session_id = "sess_" <> session_hex;
  token_jti = jti_hex;
  agent_id = new.agent_id;
  user_id = new.user_id;
  customer_id = new.customer_id;
  created_by_subject = new.created_by_subject;
  status = SessionStatus.active;
  created_at = aware now;
  expires_at = aware (now + requested_ttl settings new * 1000000);
  revoked_at = none;
}

abbrev session_error : String → String → Error
session_error code message = trusted_session_error code message

abbrev pub matches : TrustedSessionClaims → AgentSession → Bool
matches claims s =
    s.agent_id == claims.agent_id
    && s.user_id == claims.user_id
    && s.customer_id == claims.customer_id

abbrev pub agent_can_act : Option Agent → Bool
agent_can_act none = Bool.false
agent_can_act (some agent) = agent_is_active agent.status

module _ (jwt : Jwt) (settings : PermissionProxySettings) where
  unfoldable pub create :
      NewSession → String → String → ℕ → Action (CreatedTrustedSession jwt.Token)
  create new session_hex jti_hex now = do
    raise_if
        (ltb (requested_ttl settings new) 60
          || ltb settings.session_token_ttl_seconds (requested_ttl settings new))
        (session_error "INVALID_SESSION_TTL" "Session TTL is outside the permitted range")
    transaction (do
      found ← gets (Agents.get new.agent_id)
      agent ← or_raise found (session_error "AGENT_NOT_FOUND" "Agent does not exist")
      raise_if (not (agent_is_active agent.status))
          (session_error "AGENT_NOT_ACTIVE" "Agent is not active")
      s ← Sessions.add (new_session settings new session_hex jti_hex now)
      pure (record {
        session_id = s.session_id;
        session_token = Codec.issue jwt settings s;
        agent_id = s.agent_id;
        user_id = s.user_id;
        customer_id = s.customer_id;
        expires_at = as_utc s.expires_at;
      }))

  -- The checks against the stored session.
  unfoldable pub check_persisted : TrustedSessionClaims → AgentSession → ℕ → Action (Unit {0})
  check_persisted claims persisted now = do
    raise_if (not (persisted.token_jti == claims.token_jti))
        (session_error "SESSION_JTI_MISMATCH" "Session token was replaced")
    raise_if (not (session_is_active persisted.status))
        (session_error "SESSION_NOT_ACTIVE" "Session is not active")
    raise_if (leb (as_utc persisted.expires_at) now)
        (session_error "SESSION_EXPIRED" "Session has expired")
    raise_if (not (matches claims persisted))
        (session_error "SESSION_CLAIMS_MISMATCH" "Session token does not match server-side state")
    agent ← gets (Agents.get persisted.agent_id)
    raise_if (not (agent_can_act agent)) (session_error "AGENT_NOT_ACTIVE" "Agent is not active")

  unfoldable pub validate : jwt.Token → String → ℕ → Action TrustedSessionClaims
  validate token expected_agent_id now = do
    claims ← lift (Codec.decode jwt settings token now)
    raise_if (not (claims.agent_id == expected_agent_id))
        (session_error "SESSION_AGENT_MISMATCH" "Session is not bound to the authenticated agent")
    transaction (do
      found ← gets (Sessions.get claims.session_id)
      persisted ← or_raise found (session_error "SESSION_NOT_FOUND" "Session does not exist")
      check_persisted claims persisted now)
    pure claims

-- `revoke`, where the session was found.
revoke_found : AgentSession → ℕ → Action AgentSession
revoke_found persisted now =
    if session_is_revoked persisted.status
    then pure persisted
    else let changed = record persisted {
      status = SessionStatus.revoked;
      revoked_at = some (aware now);
    } in
      (Sessions.save changed >> pure changed)

unfoldable pub revoke : String → ℕ → Action AgentSession
unfolding revoke_found
revoke session_id now = transaction (do
  found ← gets (Sessions.get session_id)
  persisted ← or_raise found (session_error "SESSION_NOT_FOUND" "Session does not exist")
  revoke_found persisted now)
