-- ===== src/Tests/Routes.antt =====
-- The properties of the tool-call route and of the audit routes.
use tool_permission_enforcer.Base.{
  ℕ, String, Bool, true, false, ◌&&◌, Option, none, some, List, [], ◌∷◌, ◌≡◌, ◌≢◌, ◌↔◌, ◌⊎◌, refl,
  arith, string_eq, ◌==◌, all, leb, ltb, contains, if◌then◌else◌,
}
use tool_permission_enforcer.Base.Dict.{Dict}
use tool_permission_enforcer.Base.Json.{Json, int, str, pos}
use tool_permission_enforcer.Base.Outcome.{ok}
use tool_permission_enforcer.Store.{Db}
use tool_permission_enforcer.Domain.Models.{Agent}
use tool_permission_enforcer.Security.Claims.{TrustedSessionClaims}
use tool_permission_enforcer.Security.TrustedSessions.{
  CreatedTrustedSession, NewSession, new_session, create, validate, revoke,
}
use tool_permission_enforcer.Security.TrustedSessions.Codec
use tool_permission_enforcer.Security.Auth.{Principal}
use tool_permission_enforcer.Api.Errors.{Credentials, bearer_principal}
use tool_permission_enforcer.Api.AuditRoutes.{AuditReply, integrity, integrity_request, handle}
use tool_permission_enforcer.Api.AuditRoutes.Access.{IsAuditor, handle-IsAuditor}
use tool_permission_enforcer.ToolCalls.{World}
use tool_permission_enforcer.ToolCalls.Forwarding.{Forwarded}
use tool_permission_enforcer.Api.ToolRoutes.{ToolCallInput, call_of, execute_tool_call}
use tool_permission_enforcer.Api.ToolRoutes.Gate.{IsAdmitted, execute_tool_call-IsAdmitted}
use tool_permission_enforcer.Tests.Fixture as F
use tool_permission_enforcer.Tests.Tokens.{settings, jwt, old_token}

abbrev agent_claims : Dict Json
agent_claims =
    ("iss", str "http://issuer.test/")
    ∷ ("aud", str "tool-permission-enforcer")
    ∷ ("sub", str "support-agent")
    ∷ ("token_use", str "agent")
    ∷ ("scope", str "tool:invoke")
    ∷ ("iat", int (pos 0))
    ∷ ("nbf", int (pos 0))
    ∷ ("exp", int (pos 300))
    ∷ []

abbrev pub input : ToolCallInput (Dict Json × String)
input = record {
  request = record { tool = "crm"; operation = "read_customer"; parameters = F.parameters };
  credentials =
      some (record { scheme = "Bearer"; credentials = (agent_claims, settings.dev_jwt_secret) });
  session_token = old_token;
  idempotency_key = "key-0001";
  trace_id = none;
}

-- The request is admitted and forwarded.
input_is_forwarded :
    (execute_tool_call jwt settings none F.env input 500 F.run F.world).1.forwarded ≡ F.call ∷ []
unfolding tool_permission_enforcer.Base.string_eq
    tool_permission_enforcer.Security.TrustedSessions.create
    tool_permission_enforcer.Security.TrustedSessions.validate
    tool_permission_enforcer.Security.TrustedSessions.check_persisted
    tool_permission_enforcer.Security.TrustedSessions.new_session
    tool_permission_enforcer.Security.TrustedSessions.revoke
    tool_permission_enforcer.Security.TrustedSessions.Codec.issue
    tool_permission_enforcer.Security.TrustedSessions.Codec.issued_claims
    tool_permission_enforcer.Security.TrustedSessions.Codec.decode
    tool_permission_enforcer.Security.TrustedSessions.Codec.decoded_claims
    tool_permission_enforcer.Security.TrustedSessions.Codec.session_claims
    tool_permission_enforcer.Security.TrustedSessions.Codec.required_string
    tool_permission_enforcer.Store.Sessions.get tool_permission_enforcer.Store.Sessions.add
    tool_permission_enforcer.Store.Agents.get
    tool_permission_enforcer.Policy.Document.model_validate
    tool_permission_enforcer.Policy.Document.parse_tool
    tool_permission_enforcer.Policy.Document.parse_operation_rule
    tool_permission_enforcer.Policy.Document.parse_schema
    tool_permission_enforcer.Policy.Document.parse_constraint
    tool_permission_enforcer.Policy.Document.parse_scope
    tool_permission_enforcer.Policy.Document.parse_rule
    tool_permission_enforcer.Policy.Document.parse_max_length tool_permission_enforcer.Base.Text.len
    tool_permission_enforcer.Policy.Evaluator.evaluate
    tool_permission_enforcer.Policy.Evaluator.evaluate_manifest
    tool_permission_enforcer.Policy.Evaluator.outside_window
    tool_permission_enforcer.Policy.Evaluator.evaluate_document
    tool_permission_enforcer.Policy.Evaluator.evaluate_operation
    tool_permission_enforcer.Policy.Evaluator.evaluate_rule
    tool_permission_enforcer.Policy.Evaluator.in_scope
    tool_permission_enforcer.Policy.Evaluator.scope_allows
    tool_permission_enforcer.Policy.Manifest.validate_parameters
    tool_permission_enforcer.Policy.Manifest.accepts
    tool_permission_enforcer.Store.Manifests.get_active
    tool_permission_enforcer.Store.Tools.get_by_name native.Mathlib.Decide.ℕ_discrete
    tool_permission_enforcer.Base.nat_eq tool_permission_enforcer.Base.option_eq
    tool_permission_enforcer.Base.Text.leb_text
    tool_permission_enforcer.Audit.Sanitize.sanitize_parameters
    tool_permission_enforcer.Audit.Event.event_hash tool_permission_enforcer.Audit.Event.payload
    tool_permission_enforcer.Audit.Event.pending_event
    tool_permission_enforcer.Audit.Service.has_idempotency_key
    tool_permission_enforcer.Audit.Service.new_event
    tool_permission_enforcer.Audit.Service.record_event tool_permission_enforcer.Store.Events.add
    tool_permission_enforcer.Store.Events.find_by_idempotency_key
    tool_permission_enforcer.Store.Events.all_chain_events
    tool_permission_enforcer.Store.Events.last_chain_event
    tool_permission_enforcer.Store.Events.not_after tool_permission_enforcer.Store.Manifests.get
    tool_permission_enforcer.ToolCalls.serve tool_permission_enforcer.ToolCalls.execute
    tool_permission_enforcer.ToolCalls.execute_new
    tool_permission_enforcer.ToolCalls.execute_permitted tool_permission_enforcer.ToolCalls.finish
    tool_permission_enforcer.ToolCalls.refuse tool_permission_enforcer.ToolCalls.refuse_duplicate
    tool_permission_enforcer.ToolCalls.audit_input
    tool_permission_enforcer.ToolCalls.audit_input_with
    tool_permission_enforcer.Api.Errors.bearer_principal
    tool_permission_enforcer.Api.Errors.is_bearer tool_permission_enforcer.Base.Text.lower
    tool_permission_enforcer.Api.ToolRoutes.execute_tool_call
    tool_permission_enforcer.Api.ToolRoutes.admit tool_permission_enforcer.Security.Auth.decode
    tool_permission_enforcer.Security.Auth.read_claims
    tool_permission_enforcer.Security.Auth.decoded_claims
    tool_permission_enforcer.Security.Auth.principal_of
    tool_permission_enforcer.Security.Auth.parse_scopes tool_permission_enforcer.Security.Auth.split
    tool_permission_enforcer.Security.Auth.require_scopes
    tool_permission_enforcer.Security.Auth.resolve_active_agent
    tool_permission_enforcer.Store.Agents.get_by_oidc_subject
input_is_forwarded = refl

execute_tool_call-IsAdmitted_example :
    ((execute_tool_call jwt settings none F.env input 500 F.run F.world).1.forwarded ≡ [])
    ⊎ ((agent : Agent) × (session : TrustedSessionClaims) × (IsAdmitted jwt settings none F.env
          input 500 F.run F.world agent session)
        × Forwarded F.env (call_of jwt settings none F.env input (agent, session)) F.run F.world)
execute_tool_call-IsAdmitted_example =
    execute_tool_call-IsAdmitted jwt settings none F.env input 500 F.run F.world

abbrev auditor_claims : Dict Json
auditor_claims =
    ("iss", str "http://issuer.test/")
    ∷ ("aud", str "tool-permission-enforcer")
    ∷ ("sub", str "auditor-1")
    ∷ ("token_use", str "auditor")
    ∷ ("scope", str "audit:read")
    ∷ ("iat", int (pos 0))
    ∷ ("exp", int (pos 300))
    ∷ ("nbf", int (pos 0))
    ∷ []

abbrev auditor : Principal
auditor = record {
  subject = "auditor-1";
  token_use = "auditor";
  scopes = "audit:read" ∷ [];
  claims = auditor_claims;
}

abbrev auditor_credentials : Option (Credentials (Dict Json × String))
auditor_credentials =
    some (record { scheme = "bearer"; credentials = (auditor_claims, settings.dev_jwt_secret) })

abbrev empty_log : AuditReply
empty_log = integrity (record { valid = true; events_checked = 0; first_invalid_event_id = none })

integrity_is_answered :
    handle F.isoformat F.digest jwt settings none auditor_credentials 500 integrity_request F.db
    ≡ ok empty_log
unfolding tool_permission_enforcer.Api.AuditRoutes.handle
    tool_permission_enforcer.Api.AuditRoutes.audit_principal
    tool_permission_enforcer.Api.AuditRoutes.check_auditor
    tool_permission_enforcer.Api.AuditRoutes.answer
    tool_permission_enforcer.Api.Errors.bearer_principal
    tool_permission_enforcer.Api.Errors.is_bearer tool_permission_enforcer.Base.Text.lower
    tool_permission_enforcer.Base.string_eq tool_permission_enforcer.Base.nat_eq
    tool_permission_enforcer.Audit.Service.verify_integrity
    tool_permission_enforcer.Store.Events.all_chain_events
    tool_permission_enforcer.Security.Auth.decode tool_permission_enforcer.Security.Auth.read_claims
    tool_permission_enforcer.Security.Auth.decoded_claims
    tool_permission_enforcer.Security.Auth.principal_of
    tool_permission_enforcer.Security.Auth.parse_scopes tool_permission_enforcer.Security.Auth.split
    tool_permission_enforcer.Security.Auth.require_scopes
integrity_is_answered = refl

handle-IsAuditor_example :
    (principal : Principal) × (bearer_principal jwt settings none auditor_credentials 500
      ≡ ok principal)
    × IsAuditor principal
handle-IsAuditor_example =
    handle-IsAuditor F.isoformat F.digest jwt settings none auditor_credentials 500
      integrity_request F.db empty_log integrity_is_answered
