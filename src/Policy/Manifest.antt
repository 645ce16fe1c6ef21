-- ===== src/Policy/Manifest.antt =====
-- The typed policy schema and `validate_parameters` of policy/manifest.py. Fields of one literal
-- value (`type`, `schema_version`) are checked by the parser and not kept.
pub mod Conforms
use tool_permission_enforcer.Base.{
  ℕ, String, Bool, true, false, not, ◌&&◌, ◌||◌, Option, none, some, List, [], ◌∷◌, leb, any, all,
  string_eq, contains, if◌then◌else◌,
}
use tool_permission_enforcer.Base.Dict.{Dict, lookup, keys, has_key}
use tool_permission_enforcer.Base.Json.{Json, str, is_dict}
use tool_permission_enforcer.Base.Text.{len}

pub record StringConstraint : Type 0 where
  pub max_length : Option ℕ

pub data PropertyConstraint : Type 0 where
  string_constraint : StringConstraint → PropertyConstraint
  object_constraint : PropertyConstraint

pub record ParameterSchema : Type 0 where
  pub required : List String
  pub properties : Dict PropertyConstraint
  pub additional_properties : Bool

pub data SessionClaim : Type 0 where
  customer_id user_id : SessionClaim

pub record SessionParameterRule : Type 0 where
  pub session_claim : SessionClaim
  pub parameter : String

-- `DataScope` is its one field, `all`.
pub record OperationRule : Type 0 where
  pub parameter_schema : ParameterSchema
  pub data_scope : Option (List SessionParameterRule)

pub record ToolPermission : Type 0 where
  pub allowed_operations : List String
  pub operation_rules : Dict OperationRule

pub record ManifestDocument : Type 0 where
  pub manifest_id : String
  pub agent_id : String
  pub tools : Dict ToolPermission
  pub deny_message : String

-- `constraint.max_length is not None and len(value) > constraint.max_length`
abbrev is_too_long : Option ℕ → String → Bool
is_too_long none value = false
is_too_long (some n) value = not (leb (len value) n)

-- One round of the loop: the value is accepted under the constraint of its name, if it has one.
unfoldable pub accepts : Option PropertyConstraint → Json → Bool
accepts none value = true
accepts (some (string_constraint c)) (str s) = not (is_too_long c.max_length s)
accepts (some (string_constraint c)) value = false
accepts (some object_constraint) value = is_dict value

check_values : Dict PropertyConstraint → Dict Json → Bool
check_values properties [] = true
check_values properties ((name, value) ∷ rest) =
    if accepts (lookup name properties) value then check_values properties rest else false

unfoldable pub validate_parameters : ParameterSchema → Dict Json → Bool
unfolding check_values
validate_parameters schema parameters =
    if any (λ required. not (has_key required parameters)) schema.required
    then false
    else if not schema.additional_properties
        && any (λ name. not (has_key name schema.properties)) (keys parameters)
    then false
    else check_values schema.properties parameters
