-- ===== src/Policy/Evaluator/Total.antt =====
-- `evaluate` answers every call: no branch raises, although the rule of an operation is looked up
-- without a test.
use tool_permission_enforcer.Base.{
  ℕ, String, Bool, true, false, not, ◌||◌, Option, none, some, ◌≡◌, ◌≢◌, ◌↔◌, refl, arith, ◌==◌,
  string_eq, contains, inl, inr, Bool-cases, if◌then◌else◌,
}
use tool_permission_enforcer.Base.Dict.{lookup, has_key_iff}
use tool_permission_enforcer.Base.Json.{Json}
use tool_permission_enforcer.Base.Outcome.{Result, ok, err}
use tool_permission_enforcer.Domain.Errors.{Error, key_error}
use tool_permission_enforcer.Domain.Models.{PermissionManifest, ToolDefinition}
use tool_permission_enforcer.Domain.Enums.{tool_is_active}
use tool_permission_enforcer.Store.{Db}
use tool_permission_enforcer.Store.Manifests
use tool_permission_enforcer.Store.Tools
use tool_permission_enforcer.Policy.Manifest.{
  OperationRule, ToolPermission, ManifestDocument, validate_parameters,
}
use tool_permission_enforcer.Policy.Document.{Coercions, model_validate}
use tool_permission_enforcer.Policy.Document.WellFormed.{
  ToolIsComplete, IsWellFormed, model_validate-IsWellFormed,
}
use tool_permission_enforcer.Policy.Evaluator.{
  PolicyDecision, Request, deny, deny_unmatched, same_identity, outside_window, scope_allows,
  evaluate_rule, evaluate_operation, evaluate_document, evaluate_manifest, evaluate,
}

-- The code says `ALLOWED` if the call is allowed, and something else if not.
abbrev code_fits : PolicyDecision → Bool
code_fits d = if d.reason_code == "ALLOWED" then d.allowed else not d.allowed

abbrev answers : Result Error PolicyDecision → Bool
answers (ok d) = code_fits d
answers (err e) = false

answers_if :
    (b : Bool) (x y : Result Error PolicyDecision)
    → answers x ≡ true
    → (b ≡ false → answers y ≡ true)
    → answers (if b then x else y) ≡ true
answers_if true x y hx hy = hx
answers_if false x y hx hy = hy refl

-- The rejected test, read backwards.
allowed_of_test : (a b : Bool) → (not a || not b) ≡ false → b ≡ true
allowed_of_test a b h = ground arith

decision :
    (x : Result Error PolicyDecision)
    → answers x ≡ true
    → (d : PolicyDecision) × (x ≡ ok d) × ((d.reason_code ≡ "ALLOWED") ↔ (d.allowed ≡ true))
decision (ok d) h = (d, refl, ground arith)
decision (err e) h = absurd (ground arith)

module _ (r : Request) (manifest : PermissionManifest) where
  evaluate_rule-answers :
      (message : String) (rule : OperationRule)
      → code_fits (evaluate_rule r manifest message rule) ≡ true
  unfolding evaluate_rule string_eq
  evaluate_rule-answers message rule =
      elim (Bool-cases (validate_parameters rule.parameter_schema r.parameters)) [
        | inl e ↦ elim (Bool-cases (scope_allows r rule.data_scope)) [
          | inl e' ↦ rw (e, e')
          | inr e' ↦ rw (e, e')
        ]
        | inr e ↦ rw e
      ]

  found_rule-answers :
      (message : String) (o : Option OperationRule)
      → o ≢ none
      → answers
          (elim o [ none ↦ err key_error | some rule ↦ ok (evaluate_rule r manifest message rule) ])
        ≡ true
  found_rule-answers message none h = absurd (h refl)
  found_rule-answers message (some rule) h = evaluate_rule-answers message rule

  evaluate_operation-answers :
      (message : String) (tool : ToolDefinition) (policy : ToolPermission)
      → ToolIsComplete policy
      → answers (evaluate_operation r manifest message tool policy) ≡ true
  unfolding evaluate_operation string_eq
  evaluate_operation-answers message tool policy w =
      answers_if
        (not (contains tool.allowed_operations r.operation)
          || not (contains policy.allowed_operations r.operation))
        (ok (deny manifest "OPERATION_NOT_ALLOWED" message)) _ refl
        λ e. found_rule-answers message (lookup r.operation policy.operation_rules) (
          (has_key_iff r.operation policy.operation_rules).0
            (w.has_rule r.operation (allowed_of_test _ _ e)))

  evaluate_document-answers :
      (document : ManifestDocument) (tool : Option ToolDefinition)
      → IsWellFormed document
      → answers (evaluate_document r manifest document tool) ≡ true
  unfolding evaluate_document string_eq
  evaluate_document-answers document none w = refl
  evaluate_document-answers document (some t) w =
      answers_if (not (tool_is_active t.status))
        (ok (deny manifest "TOOL_NOT_REGISTERED" "The requested tool is not registered")) _ refl
        λ e. listed_tool-answers document t w (lookup r.tool_name document.tools) refl
    where
      listed_tool-answers :
          (document : ManifestDocument) (t : ToolDefinition)
          → IsWellFormed document
          → (o : Option ToolPermission) → lookup r.tool_name document.tools ≡ o
          → answers (elim o [
            | none ↦ ok (deny manifest "TOOL_NOT_ALLOWED" document.deny_message)
            | some policy ↦ evaluate_operation r manifest document.deny_message t policy
          ])
            ≡ true
      listed_tool-answers document t w none e = refl
      listed_tool-answers document t w (some policy) e =
          evaluate_operation-answers document.deny_message t policy (w.tool r.tool_name policy e)

module _ (c : Coercions) (digest : Json → String) (r : Request) where
  read_document-answers :
      (manifest : PermissionManifest) (tool : Option ToolDefinition) (o : Option ManifestDocument)
      → model_validate c manifest.document ≡ o
      → answers (elim o [
        | none ↦ ok (deny manifest "POLICY_CONFIGURATION_INVALID" "The active manifest is invalid")
        | some document ↦
            if not (same_identity document manifest)
            then ok (
                deny manifest "POLICY_CONFIGURATION_INVALID"
                  "The active manifest identity is invalid")
            else evaluate_document r manifest document tool
      ])
        ≡ true
  unfolding string_eq
  read_document-answers manifest tool none e = refl
  read_document-answers manifest tool (some document) e =
      answers_if (not (same_identity document manifest)) _ _ refl λ _.
        evaluate_document-answers r manifest document tool
          (model_validate-IsWellFormed c manifest.document document e)

  evaluate_manifest-answers :
      (manifest : PermissionManifest) (now : ℕ) (tool : Option ToolDefinition)
      → answers (evaluate_manifest c digest r manifest now tool) ≡ true
  unfolding evaluate_manifest string_eq
  evaluate_manifest-answers manifest now tool =
      answers_if (outside_window manifest now) _ _ refl λ _.
        answers_if (not (digest manifest.document == manifest.checksum)) _ _ refl
          λ _. read_document-answers manifest tool (model_validate c manifest.document) refl

  evaluate-answers : (now : ℕ) (db : Db) → answers (evaluate c digest r now db) ≡ true
  unfolding evaluate
  evaluate-answers now db = active_manifest-answers (Manifests.get_active r.agent_id db)
    where
      active_manifest-answers :
          (o : Option PermissionManifest)
          → answers (elim o [
            | none ↦ ok (deny_unmatched "MANIFEST_NOT_FOUND" "No active permission manifest exists")
            | some manifest ↦
                evaluate_manifest c digest r manifest now (Tools.get_by_name r.tool_name db)
          ])
            ≡ true
      active_manifest-answers none = unfold string_eq in refl
      active_manifest-answers (some manifest) =
          evaluate_manifest-answers manifest now (Tools.get_by_name r.tool_name db)

  -- Every call gets a decision, whatever the database holds, and the reason code of the decision is
  -- `ALLOWED` exactly if the call is allowed.
  pub evaluate_total :
      (now : ℕ) (db : Db)
      → (d : PolicyDecision) × (evaluate c digest r now db ≡ ok d)
        × ((d.reason_code ≡ "ALLOWED") ↔ (d.allowed ≡ true))
  evaluate_total now db = decision (evaluate c digest r now db) (evaluate-answers now db)
