-- ===== src/Api/AuditRoutes.antt =====
-- services/permission_proxy/api/audit_routes.py. The query has passed the framework's validation;
-- `AuditEventResponse` has the fields of the row.
pub mod Access
use tool_permission_enforcer.Base.{
  ℕ, String, not, Option, none, some, List, [], ◌∷◌, string_eq, contains, if◌then◌else◌,
}
use tool_permission_enforcer.Base.Json.{Json}
use tool_permission_enforcer.Base.Outcome.{Result, ok, err}
use tool_permission_enforcer.Domain.Errors.{Error, authorization_error, http_exception}
use tool_permission_enforcer.Domain.Models.{ToolCallAuditEvent}
use tool_permission_enforcer.Store.{Db}
use tool_permission_enforcer.Store.Events
use tool_permission_enforcer.Settings.{PermissionProxySettings}
use tool_permission_enforcer.Security.Auth.{Principal, require_scopes}
use tool_permission_enforcer.Security.Jwt.{Jwt, KeyReply}
use tool_permission_enforcer.Audit.Service.{IntegrityResult, verify_integrity}
use tool_permission_enforcer.Api.Errors.{Credentials, bearer_principal, answered}

pub data AuditRequest : Type 0 where
  list_request : Events.Filters → ℕ → ℕ → AuditRequest
  call_request : String → AuditRequest
  integrity_request : AuditRequest

pub data AuditReply : Type 0 where
  events : List ToolCallAuditEvent → AuditReply
  integrity : IntegrityResult → AuditReply

-- The checks after the token is decoded.
unfoldable pub check_auditor : Principal → Result Error Principal
check_auditor principal =
    if not (contains ("auditor" ∷ "admin" ∷ []) principal.token_use)
    then err (
        authorization_error "AUDITOR_TOKEN_REQUIRED"
          "An auditor or administrator token is required")
    else elim (require_scopes principal ("audit:read" ∷ [])) [ ok u ↦ ok principal | err e ↦ err e ]

abbrev found_events : List ToolCallAuditEvent → Result Error AuditReply
found_events [] = err (http_exception 404 "AUDIT_REQUEST_NOT_FOUND")
found_events (e ∷ es) = ok (events (e ∷ es))

module _ (isoformat : ℕ → String) (digest : Json → String) where
  unfoldable pub answer : AuditRequest → Db → Result Error AuditReply
  answer (list_request f limit offset) db = ok (events (Events.list_events f limit offset db))
  answer (call_request request_id) db = found_events (Events.list_by_request request_id db)
  answer integrity_request db = ok (integrity (verify_integrity isoformat digest db))

  module _ (jwt : Jwt) (settings : PermissionProxySettings)
      (provider : Option (jwt.Token → KeyReply)) where
    unfoldable pub audit_principal : Option (Credentials jwt.Token) → ℕ → Result Error Principal
    audit_principal credentials now =
        answered (elim (bearer_principal jwt settings provider credentials now) [
          | ok principal ↦ check_auditor principal
          | err e ↦ err e
        ])

    unfoldable pub handle :
        Option (Credentials jwt.Token) → ℕ → AuditRequest → Db → Result Error AuditReply
    handle credentials now request db = elim (audit_principal credentials now) [
      | ok principal ↦ answer request db
      | err e ↦ err e
    ]
