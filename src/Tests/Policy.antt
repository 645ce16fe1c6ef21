-- ===== src/Tests/Policy.antt =====
-- The policy properties for the seeded agent and manifest.
use tool_permission_enforcer.Base.{
  String, Bool, true, Option, some, List, [], ◌∷◌, ◌≡◌, ◌↔◌, refl, string_eq,
}
use tool_permission_enforcer.Base.Outcome.{ok}
use tool_permission_enforcer.Policy.Manifest.{
  StringConstraint, string_constraint, object_constraint, ParameterSchema, validate_parameters,
  SessionClaim, ManifestDocument,
}
use tool_permission_enforcer.Policy.Manifest.Conforms.{Conforms, validate_parameters_iff}
use tool_permission_enforcer.Policy.Document.{model_validate, parse_tool}
use tool_permission_enforcer.Policy.Document.WellFormed.{IsWellFormed, model_validate-IsWellFormed}
use tool_permission_enforcer.Policy.Evaluator.{PolicyDecision, evaluate}
use tool_permission_enforcer.Policy.Evaluator.Permits.{Permits, allows, evaluate-Permits}
use tool_permission_enforcer.Policy.Evaluator.Total.{evaluate_total}
use tool_permission_enforcer.Seed.Data.{seed_agent_id, seed_manifest_id, read_only_manifest}
use tool_permission_enforcer.Tests.Fixture.{coercions, digest, request, db, parameters}

abbrev schema : ParameterSchema
schema = record {
  required = "customer_id" ∷ [];
  properties =
      ("customer_id", string_constraint (record { max_length = some 64 }))
      ∷ ("changes", object_constraint)
      ∷ [];
  additional_properties = Bool.false;
}

validate_parameters_iff_example :
    (validate_parameters schema parameters ≡ true) ↔ Conforms schema parameters
validate_parameters_iff_example = validate_parameters_iff schema parameters

abbrev read_only_schema : ParameterSchema
read_only_schema = record {
  required = "customer_id" ∷ [];
  properties = ("customer_id", string_constraint (record { max_length = Option.none })) ∷ [];
  additional_properties = Bool.false;
}

abbrev read_only : ManifestDocument
read_only = record {
  manifest_id = seed_manifest_id;
  agent_id = seed_agent_id;
  tools =
      (
        "crm",
        record {
          allowed_operations = "read_customer" ∷ [];
          operation_rules =
              (
                "read_customer",
                record {
                  parameter_schema = read_only_schema;
                  data_scope = some (
                      record { session_claim = SessionClaim.customer_id; parameter = "customer_id" }
                      ∷ []);
                },
              )
              ∷ [];
        },
      )
      ∷ [];
  deny_message = "This operation is not permitted for the current agent and session.";
}

-- The seeded manifest is a document.
read_only_is_read : model_validate coercions read_only_manifest ≡ some read_only
unfolding tool_permission_enforcer.Policy.Document.model_validate
    tool_permission_enforcer.Policy.Document.parse_tool
    tool_permission_enforcer.Policy.Document.parse_operation_rule
    tool_permission_enforcer.Policy.Document.parse_schema
    tool_permission_enforcer.Policy.Document.parse_constraint
    tool_permission_enforcer.Policy.Document.parse_scope
    tool_permission_enforcer.Policy.Document.parse_rule
    tool_permission_enforcer.Policy.Document.parse_max_length tool_permission_enforcer.Base.Text.len
    tool_permission_enforcer.Base.string_eq
read_only_is_read = refl

model_validate-IsWellFormed_example : IsWellFormed read_only
model_validate-IsWellFormed_example =
    model_validate-IsWellFormed coercions read_only_manifest read_only read_only_is_read

evaluate-Permits_example :
    (allows (evaluate coercions digest request 1000 db) ≡ true)
    ↔ Permits coercions digest request 1000 db
evaluate-Permits_example = evaluate-Permits coercions digest request 1000 db

seeded_call_is_allowed : allows (evaluate coercions digest request 1000 db) ≡ true
unfolding tool_permission_enforcer.Policy.Document.model_validate
    tool_permission_enforcer.Policy.Document.parse_tool
    tool_permission_enforcer.Policy.Document.parse_operation_rule
    tool_permission_enforcer.Policy.Document.parse_schema
    tool_permission_enforcer.Policy.Document.parse_constraint
    tool_permission_enforcer.Policy.Document.parse_scope
    tool_permission_enforcer.Policy.Document.parse_rule
    tool_permission_enforcer.Policy.Document.parse_max_length tool_permission_enforcer.Base.Text.len
    tool_permission_enforcer.Base.string_eq tool_permission_enforcer.Policy.Evaluator.evaluate
    tool_permission_enforcer.Policy.Evaluator.evaluate_manifest
    tool_permission_enforcer.Policy.Evaluator.outside_window
    tool_permission_enforcer.Policy.Evaluator.evaluate_document
    tool_permission_enforcer.Policy.Evaluator.evaluate_operation
    tool_permission_enforcer.Policy.Evaluator.evaluate_rule
    tool_permission_enforcer.Policy.Evaluator.in_scope
    tool_permission_enforcer.Policy.Evaluator.scope_allows
    tool_permission_enforcer.Policy.Manifest.validate_parameters
    tool_permission_enforcer.Policy.Manifest.accepts
    tool_permission_enforcer.Store.Manifests.get_active
    tool_permission_enforcer.Store.Tools.get_by_name
seeded_call_is_allowed = refl

evaluate_total_example :
    (d : PolicyDecision) × (evaluate coercions digest request 1000 db ≡ ok d)
    × ((d.reason_code ≡ "ALLOWED") ↔ (d.allowed ≡ true))
evaluate_total_example = evaluate_total coercions digest request 1000 db
