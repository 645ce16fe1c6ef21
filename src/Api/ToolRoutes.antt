-- ===== src/Api/ToolRoutes.antt =====
-- services/permission_proxy/api/tool_routes.py: `POST /v1/tool-calls`. The request has passed the
-- framework's validation.
pub mod Gate
pub mod Customers
use tool_permission_enforcer.Base.{
  ℕ, String, Bool, not, Option, none, some, List, [], ◌∷◌, ◌==◌, string_eq, if◌then◌else◌,
}
use tool_permission_enforcer.Base.Dict.{Dict}
use tool_permission_enforcer.Base.Json.{Json, null, obj}
use tool_permission_enforcer.Base.Outcome.{
  Result, ok, err, Exec, ◌>>=◌, ◌>>◌, pure, raise_if, lift, gets,
}
use tool_permission_enforcer.Domain.Errors.{Error, value_error}
use tool_permission_enforcer.Domain.Models.{Agent}
use tool_permission_enforcer.Settings.{PermissionProxySettings}
use tool_permission_enforcer.Security.Auth.{Principal, require_scopes, resolve_active_agent}
use tool_permission_enforcer.Security.Claims.{TrustedSessionClaims}
use tool_permission_enforcer.Security.Jwt.{Jwt, KeyReply}
use tool_permission_enforcer.Security.TrustedSessions.{validate}
use tool_permission_enforcer.ToolCalls.{
  Env, Call, Run, World, in_db, execute, ToolCallOutcome, Verdict, allow, block, error,
}
use tool_permission_enforcer.Api.Errors.{Credentials, bearer_principal, http_error}

pub record ToolCallRequest : Type 0 where
  pub tool : String
  pub operation : String
  pub parameters : Dict Json

-- The request with its headers.
pub record ToolCallInput (Token : Type 0) : Type 0 where
  pub request : ToolCallRequest
  pub credentials : Option (Credentials Token)
  pub session_token : Token
  pub idempotency_key : String
  pub trace_id : Option String

pub record ToolCallResponse : Type 0 where
  pub status_code : ℕ
  pub body : ToolCallOutcome

abbrev is_block : Verdict → Bool
is_block block = Bool.true
is_block _ = Bool.false

abbrev is_error : Verdict → Bool
is_error error = Bool.true
is_error _ = Bool.false

unfoldable pub status_of : ToolCallOutcome → ℕ
status_of o =
    if o.reason_code == "DUPLICATE_REQUEST"
    then 409
    else if is_block o.decision
    then 403
    else if o.reason_code == "UPSTREAM_TOOL_TIMEOUT"
    then 504
    else if is_error o.decision
    then 502
    else 200

-- `result: dict[str, Any] | None` of `ToolCallResponse`
abbrev pub is_response_result : Option Json → Bool
is_response_result none = Bool.true
is_response_result (some null) = Bool.true
is_response_result (some (obj fs)) = Bool.true
is_response_result (some _) = Bool.false

-- `try … except … raise`, for code that changes the world.
abbrev pub answering : {A : Type 0} → Exec World Error A → Exec World Error A
answering m w = let (r, w') = m w in elim r [ ok a ↦ (ok a, w') | err e ↦ (err (http_error e), w') ]

-- The agent and its session, once the request is admitted.
abbrev pub Admitted : Type 0
Admitted = Agent × TrustedSessionClaims

module _ (jwt : Jwt) (settings : PermissionProxySettings) (provider : Option (jwt.Token → KeyReply))
    (env : Env) where
  unfoldable pub admit : ToolCallInput jwt.Token → ℕ → Exec World Error Admitted
  admit input now = do
    principal ← lift (bearer_principal jwt settings provider input.credentials now)
    lift (require_scopes principal ("tool:invoke" ∷ []))
    found ← gets (λ w. resolve_active_agent principal w.db)
    agent ← lift found
    session ← in_db (validate jwt settings input.session_token agent.agent_id now)
    pure (agent, session)

  abbrev pub call_of : ToolCallInput jwt.Token → Admitted → Call
  call_of input (agent, session) = record {
    agent_id = agent.agent_id;
    trusted_session = session;
    idempotency_key = input.idempotency_key;
    tool = input.request.tool;
    operation = input.request.operation;
    parameters = input.request.parameters;
    trace_id = input.trace_id;
  }

  -- A result that is no dictionary is no `ToolCallResponse`, which is found after the execution.
  unfoldable pub execute_tool_call :
      ToolCallInput jwt.Token → ℕ → Run → Exec World Error ToolCallResponse
  execute_tool_call input now run = do
    admitted ← answering (admit input now)
    o ← execute env (call_of input admitted) run
    raise_if (not (is_response_result o.result)) value_error
    pure (record { status_code = status_of o; body = o })
