-- ===== src/Api/AuditRoutes/Access.antt =====
-- Who reads the audit log, and what a page of it holds.
use tool_permission_enforcer.Base.{
  ℕ, String, true, Option, [], ◌∷◌, ◌≡◌, inl, inr, arith, string_eq, contains,
}
use tool_permission_enforcer.Base.Json.{Json}
use tool_permission_enforcer.Base.Outcome.{ok, Result-cases}
use tool_permission_enforcer.Store.{Db}
use tool_permission_enforcer.Settings.{PermissionProxySettings}
use tool_permission_enforcer.Security.Auth.{Principal, require_scopes}
use tool_permission_enforcer.Security.Jwt.{Jwt, KeyReply}
use tool_permission_enforcer.Api.Errors.{Credentials, bearer_principal}
use tool_permission_enforcer.Api.AuditRoutes.{
  AuditRequest, AuditReply, check_auditor, audit_principal, handle,
}

pub record IsAuditor (principal : Principal) : Type 0 where
  pub use_of_token : contains ("auditor" ∷ "admin" ∷ []) principal.token_use ≡ true
  pub scoped : contains principal.scopes "audit:read" ≡ true

check_auditor-IsAuditor :
    (principal found : Principal) → check_auditor principal ≡ ok found → IsAuditor principal
unfolding check_auditor require_scopes
check_auditor-IsAuditor principal found h = record {
  use_of_token = ground arith;
  scoped = ground arith;
}

module _ (isoformat : ℕ → String) (digest : Json → String) (jwt : Jwt)
    (settings : PermissionProxySettings) (provider : Option (jwt.Token → KeyReply))
    (credentials : Option (Credentials jwt.Token)) (now : ℕ) where
  -- A request to the audit routes is answered only for the bearer token of an auditor or an
  -- administrator with the scope `audit:read`.
  pub handle-IsAuditor :
      (r : AuditRequest) (db : Db) (reply : AuditReply)
      → handle isoformat digest jwt settings provider credentials now r db ≡ ok reply
      → (principal : Principal) × (bearer_principal jwt settings provider credentials now
          ≡ ok principal)
        × IsAuditor principal
  unfolding handle audit_principal
  handle-IsAuditor r db reply h =
      elim (Result-cases (bearer_principal jwt settings provider credentials now)) [
        | inr (e, failed) ↦ absurd (ground arith)
        | inl (principal, known) ↦ elim (Result-cases (check_auditor principal)) [
          | inr (e, failed) ↦ absurd (ground arith)
          | inl (found, checked) ↦
              (principal, known, check_auditor-IsAuditor principal found checked)
        ]
      ]
