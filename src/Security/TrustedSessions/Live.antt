-- ===== src/Security/TrustedSessions/Live.antt =====
-- Which tokens `validate` accepts.
use tool_permission_enforcer.Base.{
  ℕ, ◌<◌, String, true, Option, none, some, ◌≡◌, ◌↔◌, inl, inr, refl, ap, arith, string_eq,
  Option-cases,
}
use tool_permission_enforcer.Base.Outcome.{ok}
use tool_permission_enforcer.Domain.Enums.{AgentStatus, SessionStatus}
use tool_permission_enforcer.Domain.Models.{Agent, AgentSession, as_utc}
use tool_permission_enforcer.Store.{Db}
use tool_permission_enforcer.Store.Agents
use tool_permission_enforcer.Store.Sessions
use tool_permission_enforcer.Settings.{PermissionProxySettings}
use tool_permission_enforcer.Security.Claims.{TrustedSessionClaims}
use tool_permission_enforcer.Security.Jwt.{Jwt}
use tool_permission_enforcer.Security.TrustedSessions.{validate, check_persisted, agent_can_act}
use tool_permission_enforcer.Security.TrustedSessions.Codec

-- The session that the server holds is the one of the claims, active, not expired, and its agent may
-- act.
pub record IsLive (claims : TrustedSessionClaims) (expected : String) (now : ℕ) (db : Db)
    : Type 0 where
  pub session : AgentSession
  pub agent : Agent
  pub expected_agent : claims.agent_id ≡ expected
  pub stored : Sessions.get claims.session_id db ≡ some session
  pub same_jti : session.token_jti ≡ claims.token_jti
  pub is_active : session.status ≡ SessionStatus.active
  pub not_expired : now < as_utc session.expires_at
  pub same_agent : session.agent_id ≡ claims.agent_id
  pub same_user : session.user_id ≡ claims.user_id
  pub same_customer : session.customer_id ≡ claims.customer_id
  pub known : Agents.get session.agent_id db ≡ some agent
  pub agent_acts : agent.status ≡ AgentStatus.active

pub acting_agent :
    (found : Option Agent)
    → agent_can_act found ≡ true
    → (agent : Agent) × (found ≡ some agent) × (agent.status ≡ AgentStatus.active)
acting_agent none h = absurd (ground arith)
acting_agent (some agent) h = (agent, refl, ground arith)

module _ (jwt : Jwt) (settings : PermissionProxySettings) where
  pub validate-reads :
      (token : jwt.Token) (expected : String) (now : ℕ) (db : Db)
      → (validate jwt settings token expected now db).1 ≡ db
  unfolding validate check_persisted
  validate-reads token expected now db = ground arith

  pub validate-decode :
      (token : jwt.Token) (expected : String) (now : ℕ) (db : Db) (claims : TrustedSessionClaims)
      → (validate jwt settings token expected now db).0 ≡ ok claims
      → Codec.decode jwt settings token now ≡ ok claims
  unfolding validate check_persisted
  validate-decode token expected now db claims accepted = ground arith

  validate-bound :
      (token : jwt.Token) (expected : String) (now : ℕ) (db : Db) (claims : TrustedSessionClaims)
      → Codec.decode jwt settings token now ≡ ok claims
      → (validate jwt settings token expected now db).0 ≡ ok claims
      → claims.agent_id ≡ expected
  unfolding validate
  validate-bound token expected now db claims decoded accepted = ground arith

  validate-checked :
      (token : jwt.Token) (expected : String) (now : ℕ) (db : Db) (claims : TrustedSessionClaims)
      → Codec.decode jwt settings token now ≡ ok claims
      → (validate jwt settings token expected now db).0 ≡ ok claims
      → (session : AgentSession) × (Sessions.get claims.session_id db ≡ some session)
        × ((check_persisted jwt settings claims session now db).0 ≡ ok tt)
  unfolding validate
  validate-checked token expected now db claims decoded accepted =
      elim (Option-cases (Sessions.get claims.session_id db)) [
        | inl e ↦ absurd (ground arith)
        | inr (session, stored) ↦ (session, stored, ground arith)
      ]

  check-can_act :
      (claims : TrustedSessionClaims) (now : ℕ) (db : Db) (session : AgentSession)
      → (check_persisted jwt settings claims session now db).0 ≡ ok tt
      → agent_can_act (Agents.get session.agent_id db) ≡ true
  unfolding check_persisted
  check-can_act claims now db session checked = ground arith

  check-IsLive :
      (claims : TrustedSessionClaims) (expected : String) (now : ℕ) (db : Db)
      (session : AgentSession) (agent : Agent)
      → claims.agent_id ≡ expected
      → Sessions.get claims.session_id db ≡ some session
      → Agents.get session.agent_id db ≡ some agent
      → agent.status ≡ AgentStatus.active
      → (check_persisted jwt settings claims session now db).0 ≡ ok tt
      → IsLive claims expected now db
  unfolding check_persisted
  check-IsLive claims expected now db session agent bound stored known acts checked = record {
    session = session;
    agent = agent;
    expected_agent = bound;
    stored = stored;
    same_jti = ground arith;
    is_active = ground arith;
    not_expired = ground arith;
    same_agent = ground arith;
    same_user = ground arith;
    same_customer = ground arith;
    known = known;
    agent_acts = acts;
  }

  pub validate-IsLive :
      (token : jwt.Token) (expected : String) (now : ℕ) (db : Db) (claims : TrustedSessionClaims)
      → (validate jwt settings token expected now db).0 ≡ ok claims
      → IsLive claims expected now db
  validate-IsLive token expected now db claims accepted =
      let decoded = validate-decode token expected now db claims accepted in
      let bound = validate-bound token expected now db claims decoded accepted in
      let (session, stored, checked) =
        validate-checked token expected now db claims decoded accepted in
      let (agent, known, acts) =
        acting_agent (Agents.get session.agent_id db)
          (check-can_act claims now db session checked) in
      check-IsLive claims expected now db session agent bound stored known acts checked

  -- `validate` returns the claims of a token exactly if it decodes to them and the server holds
  -- their session: for the expected agent, with the same token identifier, agent, user and customer,
  -- active, not yet expired, and with an active agent. It never writes.
  pub validate_iff :
      (token : jwt.Token) (expected : String) (now : ℕ) (db : Db) (claims : TrustedSessionClaims)
      → (validate jwt settings token expected now db ≡ (ok claims, db))
        ↔ ((Codec.decode jwt settings token now ≡ ok claims) × IsLive claims expected now db)
  unfolding validate check_persisted
  validate_iff token expected now db claims = (
    λ accepted. (
      validate-decode token expected now db claims (ap (λ r. r.0) accepted),
      validate-IsLive token expected now db claims (ap (λ r. r.0) accepted),
    ),
    λ (decoded, live). ground arith,
  )
