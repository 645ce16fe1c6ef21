-- ===== src/Policy/Evaluator/Permits.antt =====
-- When a policy permits a call, stated without the order of the checks, and the proof that
-- `evaluate` allows exactly these calls and answers every call.
use mathlib.Core.Option.{some-injective}
use tool_permission_enforcer.Base.{
  ℕ, ◌≤◌, ◌<◌, String, Bool, true, false, Option, none, some, List, [], ◌∷◌, ◌≡◌, ◌↔◌, refl, subst,
  arith, string_eq, contains, All, inl, inr, Option-cases,
}
use tool_permission_enforcer.Base.Dict.{lookup}
use tool_permission_enforcer.Base.Json.{Json, str}
use tool_permission_enforcer.Base.Outcome.{Result, ok, err}
use tool_permission_enforcer.Domain.Enums.{ToolStatus}
use tool_permission_enforcer.Domain.Errors.{Error}
use tool_permission_enforcer.Domain.Models.{PermissionManifest, ToolDefinition, Datetime, as_utc}
use tool_permission_enforcer.Store.{Db}
use tool_permission_enforcer.Store.Manifests
use tool_permission_enforcer.Store.Tools
use tool_permission_enforcer.Policy.Manifest.{
  SessionParameterRule, OperationRule, ToolPermission, ManifestDocument,
}
use tool_permission_enforcer.Policy.Manifest.Conforms.{Conforms, validate_parameters_iff}
use tool_permission_enforcer.Policy.Document.{Coercions, model_validate}
use tool_permission_enforcer.Policy.Evaluator.{
  PolicyDecision, Request, claim_value, is_text, in_scope, scope_allows, evaluate_rule,
  evaluate_operation, evaluate_document, evaluate_manifest, evaluate, outside_window,
}

-- The parameter that a scope rule names is the text that the session holds.
abbrev pub Matches : Request → SessionParameterRule → Type 0
Matches r rule =
    lookup rule.parameter r.parameters ≡ some (str (claim_value r.session rule.session_claim))

pub record RulePermits (r : Request) (rule : OperationRule) : Type 0 where
  pub conforms : Conforms rule.parameter_schema r.parameters
  pub scoped :
      (rules : List SessionParameterRule) → rule.data_scope ≡ some rules → All (Matches r) rules

pub record DocumentPermits (r : Request) (document : ManifestDocument)
    (tool : Option ToolDefinition) : Type 0 where
  pub definition : ToolDefinition
  pub registered : tool ≡ some definition
  pub enabled : definition.status ≡ ToolStatus.active
  pub policy : ToolPermission
  pub listed : lookup r.tool_name document.tools ≡ some policy
  pub tool_operation : contains definition.allowed_operations r.operation ≡ true
  pub policy_operation : contains policy.allowed_operations r.operation ≡ true
  pub rule : OperationRule
  pub ruled : lookup r.operation policy.operation_rules ≡ some rule
  pub permitted : RulePermits r rule

module _ (c : Coercions) (digest : Json → String) where
  -- Everything that has to be true of the database at the time of the call.
  pub record Permits (r : Request) (now : ℕ) (db : Db) : Type 0 where
    pub manifest : PermissionManifest
    pub active : Manifests.get_active r.agent_id db ≡ some manifest
    pub effective : as_utc manifest.effective_from ≤ now
    pub unexpired : (t : Datetime) → manifest.expires_at ≡ some t → now < as_utc t
    pub intact : digest manifest.document ≡ manifest.checksum
    pub document : ManifestDocument
    pub read : model_validate c manifest.document ≡ some document
    pub same_manifest : document.manifest_id ≡ manifest.manifest_id
    pub same_agent : document.agent_id ≡ manifest.agent_id
    pub permitted : DocumentPermits r document (Tools.get_by_name r.tool_name db)

-- Whether a check returns a decision that allows the call.
abbrev pub allows : Result Error PolicyDecision → Bool
allows (ok d) = d.allowed
allows (err e) = false

is_text-Matches : (s : String) (o : Option Json) → (is_text s o ≡ true) ↔ (o ≡ some (str s))
is_text-Matches s (some (str t)) = ground arith
is_text-Matches s none = ground arith
is_text-Matches s (some _) = ground arith

in_scope_iff :
    (r : Request) (rules : List SessionParameterRule)
    → (in_scope r rules ≡ true) ↔ All (Matches r) rules
unfolding in_scope
in_scope_iff r [] = (λ h. tt, λ h. refl)
in_scope_iff r (rule ∷ rules) = ground (
  arith,
  in_scope_iff r rules,
  is_text-Matches (claim_value r.session rule.session_claim) (lookup rule.parameter r.parameters),
)

scope_allows_iff :
    (r : Request) (o : Option (List SessionParameterRule))
    → (scope_allows r o ≡ true)
      ↔ ((rules : List SessionParameterRule) → o ≡ some rules → All (Matches r) rules)
unfolding scope_allows
scope_allows_iff r none = (λ h rules e. absurd (ground arith), λ h. refl)
scope_allows_iff r (some rules) = (
  λ h rules' e.
      subst (All (Matches r)) (some-injective rules rules' e) ((in_scope_iff r rules).0 h),
  λ h. (in_scope_iff r rules).1 (h rules refl),
)

module _ (r : Request) (manifest : PermissionManifest) where
  evaluate_rule_iff :
      (message : String) (rule : OperationRule)
      → ((evaluate_rule r manifest message rule).allowed ≡ true) ↔ RulePermits r rule
  unfolding evaluate_rule
  evaluate_rule_iff message rule = (
    λ h. record {
      conforms = (validate_parameters_iff rule.parameter_schema r.parameters).0 (ground arith);
      scoped = (scope_allows_iff r rule.data_scope).0 (ground arith);
    },
    λ p. ground (
      arith,
      (validate_parameters_iff rule.parameter_schema r.parameters).1 p.conforms,
      (scope_allows_iff r rule.data_scope).1 p.scoped,
    ),
  )

  evaluate_document_iff :
      (document : ManifestDocument) (tool : Option ToolDefinition)
      → (allows (evaluate_document r manifest document tool) ≡ true)
        ↔ DocumentPermits r document tool
  unfolding evaluate_document evaluate_operation
  evaluate_document_iff document tool = (
    permits_of_allows document tool,
    λ p. ground (arith, p, (evaluate_rule_iff document.deny_message p.rule).1 p.permitted),
  )
    where
      permits_of_allows :
          (document : ManifestDocument) (tool : Option ToolDefinition)
          → allows (evaluate_document r manifest document tool) ≡ true
          → DocumentPermits r document tool
      permits_of_allows document none h = absurd (ground arith)
      permits_of_allows document (some t) h =
          elim (Option-cases (lookup r.tool_name document.tools)) [
            | inl e ↦ absurd (ground arith)
            | inr (policy, e) ↦ elim (Option-cases (lookup r.operation policy.operation_rules)) [
              | inl e' ↦ absurd (ground arith)
              | inr (rule, e') ↦ record {
                definition = t;
                registered = refl;
                enabled = ground arith;
                policy = policy;
                listed = e;
                tool_operation = ground arith;
                policy_operation = ground arith;
                rule = rule;
                ruled = e';
                permitted = (evaluate_rule_iff document.deny_message rule).0 (ground arith);
              }
            ]
          ]

module _ (c : Coercions) (digest : Json → String) (r : Request) (now : ℕ) (db : Db) where
  Permits-of_allowed : allows (evaluate c digest r now db) ≡ true → Permits c digest r now db
  unfolding evaluate evaluate_manifest outside_window
  Permits-of_allowed h = elim (Option-cases (Manifests.get_active r.agent_id db)) [
    | inl e ↦ absurd (ground arith)
    | inr (manifest, e) ↦ elim (Option-cases (model_validate c manifest.document)) [
      | inl e' ↦ absurd (ground arith)
      | inr (document, e') ↦ record {
        manifest = manifest;
        active = e;
        effective = ground arith;
        unexpired = λ t u. ground arith;
        intact = ground arith;
        document = document;
        read = e';
        same_manifest = ground arith;
        same_agent = ground arith;
        permitted =
            (evaluate_document_iff r manifest document (Tools.get_by_name r.tool_name db)).0
              (ground arith);
      }
    ]
  ]

  allowed_of_Permits : Permits c digest r now db → allows (evaluate c digest r now db) ≡ true
  unfolding evaluate evaluate_manifest outside_window
  allowed_of_Permits p = elim (Option-cases p.manifest.expires_at) [
    | inl e ↦ ground (
      arith,
      (evaluate_document_iff r p.manifest p.document (Tools.get_by_name r.tool_name db)).1
          p.permitted,
    )
    | inr (t, e) ↦ ground (
      arith,
      p.unexpired t e,
      (evaluate_document_iff r p.manifest p.document (Tools.get_by_name r.tool_name db)).1
          p.permitted,
    )
  ]

  -- A call is allowed exactly if the agent has an active manifest that is inside its window, has the
  -- stored checksum, reads as a document with the same identity, and permits the call.
  pub evaluate-Permits : (allows (evaluate c digest r now db) ≡ true) ↔ Permits c digest r now db
  evaluate-Permits = (Permits-of_allowed, allowed_of_Permits)
