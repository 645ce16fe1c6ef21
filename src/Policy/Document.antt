-- ===== src/Policy/Document.antt =====
-- `ManifestDocument.model_validate`: the fields, their bounds and the model validators that
-- policy/manifest.py declares, read from a JSON document. What pydantic takes for an integer or a
-- Boolean beside the JSON ones is the parameter `Coercions`; a text is taken only from a text.
pub mod WellFormed
use tool_permission_enforcer.Base.{
  ℕ, String, Bool, true, false, not, ◌&&◌, Option, none, some, List, [], ◌∷◌, ◌==◌, leb, any, all,
  string_eq, contains, if◌then◌else◌,
}
use tool_permission_enforcer.Base.Dict.{Dict, lookup, keys, has_key}
use tool_permission_enforcer.Base.Json.{Json, null, arr, ℤ, pos, entries, items, as_str, as_dict}
use tool_permission_enforcer.Base.Text.{len}
use tool_permission_enforcer.Policy.Manifest.{
  StringConstraint, PropertyConstraint, string_constraint, object_constraint, ParameterSchema,
  SessionClaim, customer_id, user_id, SessionParameterRule, OperationRule, ToolPermission,
  ManifestDocument,
}

pub record Coercions : Type 0 where
  pub to_int : Json → Option ℤ
  pub to_bool : Json → Option Bool

infixl 5 ◌>>=◌ ◌>>◌
abbrev ◌>>=◌ : {A B : Type 0} → Option A → (A → Option B) → Option B
none >>= f = none
some a >>= f = f a

abbrev ◌>>◌ : {B : Type 0} → Option (Unit {0}) → Option B → Option B
m >> k = m >>= λ _. k

abbrev guard : Bool → Option (Unit {0})
guard true = some tt
guard false = none

-- `extra="forbid"`
abbrev only : List String → Dict Json → Option (Unit {0})
only declared d = guard (all (contains declared) (keys d))

-- `str = Field(min_length=…, max_length=…)`
abbrev bounded : ℕ → ℕ → Json → Option String
bounded least most j = do s ← as_str j; guard (leb least (len s) && leb (len s) most); some s

abbrev traverse : {A : Type 0} → (Json → Option A) → List Json → Option (List A)
traverse f [] = some []
traverse f (j ∷ js) = do a ← f j; rest ← traverse f js; some (a ∷ rest)

abbrev traverse_values : {A : Type 0} → (Json → Option A) → Dict Json → Option (Dict A)
traverse_values f [] = some []
traverse_values f ((k, j) ∷ d) = do a ← f j; rest ← traverse_values f d; some ((k, a) ∷ rest)

abbrev parse_list : {A : Type 0} → (Json → Option A) → Json → Option (List A)
parse_list f (arr xs) = traverse f (items xs)
parse_list f _ = none

abbrev parse_dict : {A : Type 0} → (Json → Option A) → Json → Option (Dict A)
parse_dict f j = do fs ← as_dict j; traverse_values f (entries fs)

abbrev is_empty : {A : Type 0} → List A → Bool
is_empty [] = true
is_empty (x ∷ xs) = false

-- `set(xs) - set(ys)` is not empty
abbrev misses : List String → List String → Bool
misses xs ys = any (λ x. not (contains ys x)) xs

-- `Literal["customer_id", "user_id"]`
abbrev session_claim : String → Option SessionClaim
session_claim s =
    if s == "customer_id" then some customer_id else if s == "user_id" then some user_id else none

unfoldable pub parse_rule : Json → Option SessionParameterRule
parse_rule j = do
  fs ← as_dict j
  let d : Dict Json = entries fs
  only ("type" ∷ "session_claim" ∷ "parameter" ∷ []) d
  type ← lookup "type" d >>= as_str
  guard (type == "session_value_equals_parameter")
  name ← lookup "session_claim" d >>= as_str
  claim ← session_claim name
  parameter ← lookup "parameter" d >>= bounded 1 100
  some (record { session_claim = claim; parameter = parameter })

unfoldable pub parse_scope : Json → Option (List SessionParameterRule)
parse_scope j = do
  fs ← as_dict j
  let d : Dict Json = entries fs
  only ("all" ∷ []) d
  rules ← lookup "all" d >>= parse_list parse_rule
  guard (not (is_empty rules))
  some rules

-- `X | None = None`
abbrev optional : {A : Type 0} → (Json → Option A) → Option Json → Option (Option A)
optional f none = some none
optional f (some null) = some none
optional f (some j) = f j >>= λ a. some (some a)

module _ (c : Coercions) where
  -- `Field(ge=1, le=4096)`
  unfoldable pub parse_max_length : Json → Option ℕ
  parse_max_length j = elim (c.to_int j) [
    | some (pos n) ↦ if leb 1 n && leb n 4096 then some n else none
    | _ ↦ none
  ]

  parse_string_constraint : Dict Json → Option PropertyConstraint
  parse_string_constraint d = do
    only ("type" ∷ "maxLength" ∷ []) d
    n ← optional parse_max_length (lookup "maxLength" d)
    some (string_constraint (record { max_length = n }))

  parse_object_constraint : Dict Json → Option PropertyConstraint
  parse_object_constraint d = do only ("type" ∷ []) d; some object_constraint

  -- The members of the union, told apart by `type`.
  member : String → Dict Json → Option PropertyConstraint
  member type d =
      if type == "string"
      then parse_string_constraint d
      else if type == "object"
      then parse_object_constraint d
      else none

  unfoldable pub parse_constraint : Json → Option PropertyConstraint
  unfolding parse_string_constraint parse_object_constraint member
  parse_constraint j = do
    fs ← as_dict j
    let d : Dict Json = entries fs
    type ← lookup "type" d >>= as_str
    member type d

  -- `populate_by_name`: the alias or the name of `additional_properties`, and not both.
  abbrev parse_additional : Option Json → Option Json → Option Bool
  parse_additional none none = some false
  parse_additional (some j) none = c.to_bool j
  parse_additional none (some j) = c.to_bool j
  parse_additional (some _) (some _) = none

  unfoldable pub parse_schema : Json → Option ParameterSchema
  parse_schema j = do
    fs ← as_dict j
    let d : Dict Json = entries fs
    only ("required" ∷ "properties" ∷ "additionalProperties" ∷ "additional_properties" ∷ []) d
    required ← elim (lookup "required" d) [ none ↦ some [] | some r ↦ parse_list as_str r ]
    properties ← lookup "properties" d >>= parse_dict parse_constraint
    additional ←
        parse_additional (lookup "additionalProperties" d) (lookup "additional_properties" d)
    guard (not (misses required (keys properties)))
    some (record {
      required = required;
      properties = properties;
      additional_properties = additional;
    })

  unfoldable pub parse_operation_rule : Json → Option OperationRule
  parse_operation_rule j = do
    fs ← as_dict j
    let d : Dict Json = entries fs
    only ("parameter_schema" ∷ "data_scope" ∷ []) d
    schema ← lookup "parameter_schema" d >>= parse_schema
    scope ← optional parse_scope (lookup "data_scope" d)
    some (record { parameter_schema = schema; data_scope = scope })

  unfoldable pub parse_tool : Json → Option ToolPermission
  parse_tool j = do
    fs ← as_dict j
    let d : Dict Json = entries fs
    only ("allowed_operations" ∷ "operation_rules" ∷ []) d
    allowed ← lookup "allowed_operations" d >>= parse_list as_str
    guard (not (is_empty allowed))
    rules ← lookup "operation_rules" d >>= parse_dict parse_operation_rule
    guard (not (misses allowed (keys rules)))
    guard (not (misses (keys rules) allowed))
    some (record { allowed_operations = allowed; operation_rules = rules })

  unfoldable pub model_validate : Json → Option ManifestDocument
  model_validate j = do
    fs ← as_dict j
    let d : Dict Json = entries fs
    only ("schema_version" ∷ "manifest_id" ∷ "agent_id" ∷ "tools" ∷ "deny_message" ∷ []) d
    version ← lookup "schema_version" d >>= as_str
    guard (version == "1.0")
    manifest_id ← lookup "manifest_id" d >>= bounded 1 100
    agent_id ← lookup "agent_id" d >>= bounded 1 64
    tools ← lookup "tools" d >>= parse_dict parse_tool
    guard (not (is_empty tools))
    message ← lookup "deny_message" d >>= bounded 1 500
    some (record {
      manifest_id = manifest_id;
      agent_id = agent_id;
      tools = tools;
      deny_message = message;
    })
