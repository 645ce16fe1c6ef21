-- ===== src/Api/ToolRoutes/Gate.antt =====
-- Who can make the proxy call a tool.
use tool_permission_enforcer.Base.{
  ℕ, String, true, Option, some, [], ◌∷◌, ◌≡◌, ap, ◌⊎◌, inl, inr, arith, string_eq, contains,
  Bool-cases,
}
use tool_permission_enforcer.Base.Outcome.{Result, ok, err, Result-cases}
use tool_permission_enforcer.Domain.Enums.{AgentStatus}
use tool_permission_enforcer.Domain.Errors.{Error}
use tool_permission_enforcer.Domain.Models.{Agent}
use tool_permission_enforcer.Store.{Db}
use tool_permission_enforcer.Store.Agents
use tool_permission_enforcer.Settings.{PermissionProxySettings}
use tool_permission_enforcer.Security.Auth.{Principal, require_scopes, resolve_active_agent}
use tool_permission_enforcer.Security.Claims.{TrustedSessionClaims}
use tool_permission_enforcer.Security.Jwt.{Jwt, KeyReply}
use tool_permission_enforcer.Security.TrustedSessions.{validate}
use tool_permission_enforcer.Security.TrustedSessions.Codec
use tool_permission_enforcer.Security.TrustedSessions.Live.{
  IsLive, validate-reads, validate-decode, validate-IsLive,
}
use tool_permission_enforcer.ToolCalls.{Env, Run, World, execute}
use tool_permission_enforcer.ToolCalls.Forwarding.{Forwarded, execute-Forwarded}
use tool_permission_enforcer.Api.Errors.{bearer_principal}
use tool_permission_enforcer.Api.ToolRoutes.{
  ToolCallInput, Admitted, admit, call_of, is_response_result, execute_tool_call,
}

pub require_scopes-one :
    (principal : Principal) (scope : String)
    → require_scopes principal (scope ∷ []) ≡ ok tt
    → contains principal.scopes scope ≡ true
unfolding require_scopes
require_scopes-one principal scope h = ground arith

resolve_active_agent-ok :
    (principal : Principal) (db : Db) (agent : Agent)
    → resolve_active_agent principal db ≡ ok agent
    → (principal.token_use ≡ "agent")
      × (Agents.get_by_oidc_subject principal.subject db ≡ some agent)
      × (agent.status ≡ AgentStatus.active)
unfolding resolve_active_agent
resolve_active_agent-ok principal db agent h = (ground arith, ground arith, ground arith)

module _ (jwt : Jwt) (settings : PermissionProxySettings) (provider : Option (jwt.Token → KeyReply))
    (env : Env) (input : ToolCallInput jwt.Token) (now : ℕ) (run : Run) where
  -- The bearer token is one of a registered and active agent, with the scope `tool:invoke`, and the
  -- session token of the request is decoded to the claims of a live session of the agent.
  pub record IsAdmitted (w : World) (agent : Agent) (session : TrustedSessionClaims) : Type 0 where
    pub principal : Principal
    pub authenticated : bearer_principal jwt settings provider input.credentials now ≡ ok principal
    pub scoped : contains principal.scopes "tool:invoke" ≡ true
    pub is_agent : principal.token_use ≡ "agent"
    pub registered : Agents.get_by_oidc_subject principal.subject w.db ≡ some agent
    pub active : agent.status ≡ AgentStatus.active
    pub decoded : Codec.decode jwt settings input.session_token now ≡ ok session
    pub live : IsLive session agent.agent_id now w.db

  abbrev identified : Result Error Principal
  identified = bearer_principal jwt settings provider input.credentials now

  admit-reads : (w : World) → (admit jwt settings provider env input now w).1 ≡ w
  unfolding admit
  admit-reads w = elim (Result-cases identified) [
    | inr (e, failed) ↦ ground arith
    | inl (principal, known) ↦ elim (Result-cases (resolve_active_agent principal w.db)) [
      | inr (e, failed) ↦ ground arith
      | inl (agent, found) ↦
          ground (arith, validate-reads jwt settings input.session_token agent.agent_id now w.db)
    ]
  ]

  admit-principal :
      (w : World) (a : Admitted)
      → (admit jwt settings provider env input now w).0 ≡ ok a
      → (principal : Principal) × (identified ≡ ok principal)
  unfolding admit
  admit-principal w a h = elim (Result-cases identified) [
    | inl found ↦ found
    | inr (e, failed) ↦ absurd (ground arith)
  ]

  admit-steps :
      (w : World) (agent : Agent) (session : TrustedSessionClaims) (principal : Principal)
      → (admit jwt settings provider env input now w).0 ≡ ok (agent, session)
      → identified ≡ ok principal
      → (require_scopes principal ("tool:invoke" ∷ []) ≡ ok tt)
        × (resolve_active_agent principal w.db ≡ ok agent)
        × ((validate jwt settings input.session_token agent.agent_id now w.db).0 ≡ ok session)
  unfolding admit
  admit-steps w agent session principal h known = (ground arith, ground arith, ground arith)

  pub admit-IsAdmitted :
      (w : World) (agent : Agent) (session : TrustedSessionClaims)
      → (admit jwt settings provider env input now w).0 ≡ ok (agent, session)
      → IsAdmitted w agent session
  admit-IsAdmitted w agent session h =
      let (principal, known) = admit-principal w (agent, session) h in
      let (scopes, found, valid) = admit-steps w agent session principal h known in
      let (is_agent, registered, active) = resolve_active_agent-ok principal w.db agent found in
      record {
        principal = principal;
        authenticated = known;
        scoped = require_scopes-one principal "tool:invoke" scopes;
        is_agent = is_agent;
        registered = registered;
        active = active;
        decoded =
            validate-decode jwt settings input.session_token agent.agent_id now w.db session valid;
        live =
            validate-IsLive jwt settings input.session_token agent.agent_id now w.db session valid;
      }

  pub admitted-forwarded :
      (w : World) (a : Admitted)
      → (admit jwt settings provider env input now w).0 ≡ ok a
      → (execute_tool_call jwt settings provider env input now run w).1
        ≡ (execute env (call_of jwt settings provider env input a) run w).1
  unfolding execute_tool_call
  admitted-forwarded w a h =
      elim (Result-cases (execute env (call_of jwt settings provider env input a) run w).0) [
        | inl (o, answered) ↦ elim (Bool-cases (is_response_result o.result)) [
          | inl fits ↦ ground (arith, admit-reads w)
          | inr unfit ↦ ground (arith, admit-reads w)
        ]
        | inr (e, failed) ↦ ground (arith, admit-reads w)
      ]

  pub refused-world :
      (w : World) (e : Error)
      → (admit jwt settings provider env input now w).0 ≡ err e
      → (execute_tool_call jwt settings provider env input now run w).1 ≡ w
  unfolding execute_tool_call
  refused-world w e failed = ground (arith, admit-reads w)

  -- A request is refused, or the service executes its call.
  pub execute_tool_call-cases :
      (w : World)
      → ((execute_tool_call jwt settings provider env input now run w).1 ≡ w)
        ⊎ ((a : Admitted) × ((execute_tool_call jwt settings provider env input now run w).1
              ≡ (execute env (call_of jwt settings provider env input a) run w).1))
  execute_tool_call-cases w = elim (Result-cases (admit jwt settings provider env input now w).0) [
    | inr (e, failed) ↦ inl (refused-world w e failed)
    | inl (a, admitted) ↦ inr (a, admitted-forwarded w a admitted)
  ]

  gate_of_forwarded :
      (w : World) (agent : Agent) (session : TrustedSessionClaims)
      → IsAdmitted w agent session
      → ((execute env (call_of jwt settings provider env input (agent, session)) run w).1.forwarded
          ≡ w.forwarded)
        ⊎ ((agent' : Agent) × (session' : TrustedSessionClaims) × (IsAdmitted w agent' session')
            × Forwarded env (call_of jwt settings provider env input (agent', session')) run w)
  gate_of_forwarded w agent session admitted =
      elim (execute-Forwarded env (call_of jwt settings provider env input (agent, session)) run
        w) [ inl same ↦ inl same | inr forwarded ↦ inr (agent, session, admitted, forwarded) ]

  -- The adapter is invoked only for a request whose bearer token is one of a registered and active
  -- agent with the scope `tool:invoke`, whose own session token is decoded to the claims of a live
  -- session of this agent, and whose call, made for this session, has a new key and a policy that
  -- permits it; the authorization is stored first.
  pub execute_tool_call-IsAdmitted :
      (w : World)
      → ((execute_tool_call jwt settings provider env input now run w).1.forwarded ≡ w.forwarded)
        ⊎ ((agent : Agent) × (session : TrustedSessionClaims) × (IsAdmitted w agent session)
            × Forwarded env (call_of jwt settings provider env input (agent, session)) run w)
  execute_tool_call-IsAdmitted w =
      elim (Result-cases (admit jwt settings provider env input now w).0) [
        | inr (e, failed) ↦ inl (ap (λ (x : World). x.forwarded) (refused-world w e failed))
        | inl ((agent, session), admitted) ↦
            rw (admitted-forwarded w (agent, session) admitted)
              (gate_of_forwarded w agent session (admit-IsAdmitted w agent session admitted))
      ]
