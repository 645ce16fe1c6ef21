-- ===== src/Policy/Evaluator.antt =====
-- `PolicyEvaluator.evaluate` of policy/evaluator.py: the checks in the order of the source, each
-- with the answer that it gives when it fails. `digest` is SHA-256 of the canonical JSON text.
pub mod Permits
pub mod Total
use tool_permission_enforcer.Base.{
  ℕ, String, Bool, true, false, not, ◌&&◌, ◌||◌, Option, none, some, List, [], ◌∷◌, ◌==◌, leb,
  string_eq, contains, if◌then◌else◌,
}
use tool_permission_enforcer.Base.Dict.{Dict, lookup}
use tool_permission_enforcer.Base.Json.{Json, str}
use tool_permission_enforcer.Base.Outcome.{Result, ok, err}
use tool_permission_enforcer.Domain.Enums.{tool_is_active}
use tool_permission_enforcer.Domain.Errors.{Error, key_error}
use tool_permission_enforcer.Domain.Models.{PermissionManifest, ToolDefinition, as_utc}
use tool_permission_enforcer.Store.{Db}
use tool_permission_enforcer.Store.Manifests
use tool_permission_enforcer.Store.Tools
use tool_permission_enforcer.Security.Claims.{TrustedSessionClaims}
use tool_permission_enforcer.Policy.Manifest.{
  SessionClaim, customer_id, user_id, SessionParameterRule, OperationRule, ToolPermission,
  ManifestDocument, validate_parameters,
}
use tool_permission_enforcer.Policy.Document.{Coercions, model_validate}

pub record PolicyDecision : Type 0 where
  pub allowed : Bool
  pub reason_code : String
  pub message : String
  pub manifest_id : Option String
  pub policy_checksum : Option String

-- A tool call as the evaluator sees it.
pub record Request : Type 0 where
  pub agent_id : String
  pub session : TrustedSessionClaims
  pub tool_name : String
  pub operation : String
  pub parameters : Dict Json

-- `_deny`, with and without a manifest
abbrev deny_unmatched : String → String → PolicyDecision
deny_unmatched code message = record {
  allowed = false;
  reason_code = code;
  message = message;
  manifest_id = none;
  policy_checksum = none;
}

abbrev deny : PermissionManifest → String → String → PolicyDecision
deny manifest code message = record {
  allowed = false;
  reason_code = code;
  message = message;
  manifest_id = some manifest.manifest_id;
  policy_checksum = some manifest.checksum;
}

abbrev permit : PermissionManifest → PolicyDecision
permit manifest = record {
  allowed = true;
  reason_code = "ALLOWED";
  message = "Tool call is permitted";
  manifest_id = some manifest.manifest_id;
  policy_checksum = some manifest.checksum;
}

-- `session_values[claim]`
abbrev pub claim_value : TrustedSessionClaims → SessionClaim → String
claim_value session customer_id = session.customer_id
claim_value session user_id = session.user_id

-- `isinstance(parameter_value, str) and parameter_value == session_value`
abbrev is_text : String → Option Json → Bool
is_text value (some (str s)) = s == value
is_text value _ = false

unfoldable pub in_scope : Request → List SessionParameterRule → Bool
in_scope r [] = true
in_scope r (rule ∷ rules) =
    if is_text (claim_value r.session rule.session_claim) (lookup rule.parameter r.parameters)
    then in_scope r rules
    else false

unfoldable pub scope_allows : Request → Option (List SessionParameterRule) → Bool
scope_allows r none = true
scope_allows r (some rules) = in_scope r rules

unfoldable pub evaluate_rule :
    Request → PermissionManifest → String → OperationRule → PolicyDecision
evaluate_rule r manifest deny_message rule =
    if not (validate_parameters rule.parameter_schema r.parameters)
    then deny manifest "INVALID_PARAMETERS"
        "Tool-call parameters do not match the registered policy schema"
    else if not (scope_allows r rule.data_scope)
    then deny manifest "DATA_SCOPE_VIOLATION" deny_message
    else permit manifest

-- `tool_policy.operation_rules[operation]` raises if there is no rule.
unfoldable pub evaluate_operation :
    Request
    → PermissionManifest
    → String
    → ToolDefinition
    → ToolPermission
    → Result Error PolicyDecision
evaluate_operation r manifest deny_message tool policy =
    if not (contains tool.allowed_operations r.operation)
      || not (contains policy.allowed_operations r.operation)
    then ok (deny manifest "OPERATION_NOT_ALLOWED" deny_message)
    else elim (lookup r.operation policy.operation_rules) [
      | none ↦ err key_error
      | some rule ↦ ok (evaluate_rule r manifest deny_message rule)
    ]

unfoldable pub evaluate_document :
    Request
    → PermissionManifest
    → ManifestDocument
    → Option ToolDefinition
    → Result Error PolicyDecision
evaluate_document r manifest document none =
    ok (deny manifest "TOOL_NOT_REGISTERED" "The requested tool is not registered")
evaluate_document r manifest document (some tool) =
    if not (tool_is_active tool.status)
    then ok (deny manifest "TOOL_NOT_REGISTERED" "The requested tool is not registered")
    else elim (lookup r.tool_name document.tools) [
      | none ↦ ok (deny manifest "TOOL_NOT_ALLOWED" document.deny_message)
      | some policy ↦ evaluate_operation r manifest document.deny_message tool policy
    ]

unfoldable pub outside_window : PermissionManifest → ℕ → Bool
outside_window manifest now =
    not (leb (as_utc manifest.effective_from) now)
    || elim manifest.expires_at [ none ↦ false | some t ↦ leb (as_utc t) now ]

abbrev same_identity : ManifestDocument → PermissionManifest → Bool
same_identity document manifest =
    document.manifest_id == manifest.manifest_id && document.agent_id == manifest.agent_id

module _ (c : Coercions) (digest : Json → String) where
  unfoldable pub evaluate_manifest :
      Request → PermissionManifest → ℕ → Option ToolDefinition → Result Error PolicyDecision
  evaluate_manifest r manifest now tool =
      if outside_window manifest now
      then ok
          (deny manifest "MANIFEST_EXPIRED" "The active manifest is outside its effective window")
      else if not (digest manifest.document == manifest.checksum)
      then ok (
          deny manifest "POLICY_INTEGRITY_VIOLATION"
            "The active manifest failed its integrity check")
      else elim (model_validate c manifest.document) [
        | none ↦ ok (deny manifest "POLICY_CONFIGURATION_INVALID" "The active manifest is invalid")
        | some document ↦
            if not (same_identity document manifest)
            then ok (
                deny manifest "POLICY_CONFIGURATION_INVALID"
                  "The active manifest identity is invalid")
            else evaluate_document r manifest document tool
      ]

  unfoldable pub evaluate : Request → ℕ → Db → Result Error PolicyDecision
  evaluate r now db = elim (Manifests.get_active r.agent_id db) [
    | none ↦ ok (deny_unmatched "MANIFEST_NOT_FOUND" "No active permission manifest exists")
    | some manifest ↦ evaluate_manifest r manifest now (Tools.get_by_name r.tool_name db)
  ]
