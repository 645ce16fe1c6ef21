-- ===== src/Policy/Document/WellFormed.antt =====
-- What a document that was read without an error is known to satisfy: the model validators of
-- policy/manifest.py hold of it.
use tool_permission_enforcer.Base.{
  ◌≤◌, String, true, false, Option, none, some, List, [], ◌∷◌, ◌≡◌, ◌≢◌, refl, arith, string_eq,
  contains, inl, inr, Option-cases,
}
use tool_permission_enforcer.Base.Dict.{Dict, lookup, keys, has_key}
use tool_permission_enforcer.Base.Json.{Json, obj, entries}
use tool_permission_enforcer.Base.Text.{len}
use tool_permission_enforcer.Policy.Manifest.{
  ParameterSchema, OperationRule, ToolPermission, ManifestDocument,
}
use tool_permission_enforcer.Policy.Document.{
  Coercions, ◌>>=◌, misses, traverse_values, parse_dict, parse_schema, parse_operation_rule,
  parse_tool, model_validate,
}

-- Every required parameter is declared.
pub record SchemaIsComplete (schema : ParameterSchema) : Type 0 where
  pub declared :
      (k : String) → contains schema.required k ≡ true → has_key k schema.properties ≡ true

-- Exactly the allowed operations have a rule, and each rule's schema declares what it requires.
pub record ToolIsComplete (tool : ToolPermission) : Type 0 where
  pub has_rule :
      (op : String)
      → contains tool.allowed_operations op ≡ true
      → has_key op tool.operation_rules ≡ true
  pub has_operation :
      (op : String)
      → has_key op tool.operation_rules ≡ true
      → contains tool.allowed_operations op ≡ true
  pub schema :
      (op : String) (rule : OperationRule)
      → lookup op tool.operation_rules ≡ some rule
      → SchemaIsComplete rule.parameter_schema

pub record IsWellFormed (document : ManifestDocument) : Type 0 where
  pub tools_given : document.tools ≢ []
  pub message_bounds : (1 ≤ len document.deny_message) × (len document.deny_message ≤ 500)
  pub tool :
      (name : String) (tool : ToolPermission)
      → lookup name document.tools ≡ some tool
      → ToolIsComplete tool

has_of_misses :
    (xs ys : List String) (x : String)
    → misses xs ys ≡ false
    → contains xs x ≡ true
    → contains ys x ≡ true
has_of_misses [] ys x h m = cc
has_of_misses (z ∷ zs) ys x h m = elim (string_eq.dec x z) [
  | yes e ↦ rw e (ground arith)
  | no n ↦ has_of_misses zs ys x (ground arith) (ground arith)
]

bind-eq-some :
    {A B : Type 0} (m : Option A) (f : A → Option B) {b : B}
    → (m >>= f) ≡ some b
    → (a : A) × (m ≡ some a) × (f a ≡ some b)
bind-eq-some none f h = cc
bind-eq-some (some a) f h = (a, refl, h)

-- What `traverse_values` finds under a key was read from some value.
lookup-traverse_values :
    {A : Type 0} (f : Json → Option A) (d : Dict Json) (r : Dict A) (k : String) (a : A)
    → traverse_values f d ≡ some r
    → lookup k r ≡ some a
    → (j : Json) × (f j ≡ some a)
lookup-traverse_values f [] r k a h m = absurd (ground arith)
lookup-traverse_values f ((i, j) ∷ d) r k a h m = elim (Option-cases (f j)) [
  | inl e ↦ absurd (ground arith)
  | inr (x, e) ↦ elim (Option-cases (traverse_values f d)) [
    | inl e' ↦ absurd (ground arith)
    | inr (rest, e') ↦ elim (string_eq.dec k i) [
      | yes same ↦ (j, ground arith)
      | no differ ↦ lookup-traverse_values f d rest k a e' (ground arith)
    ]
  ]
]

lookup-parse_dict :
    {A : Type 0} (f : Json → Option A) (o : Option Json) (r : Dict A) (k : String) (a : A)
    → (o >>= parse_dict f) ≡ some r
    → lookup k r ≡ some a
    → (j : Json) × (f j ≡ some a)
lookup-parse_dict f (some (obj fs)) r k a h m = lookup-traverse_values f (entries fs) r k a h m
lookup-parse_dict f none r k a h m = absurd (ground arith)
lookup-parse_dict f (some _) r k a h m = absurd (ground arith)

module _ (c : Coercions) where
  parse_schema-SchemaIsComplete :
      (j : Json) (s : ParameterSchema) → parse_schema c j ≡ some s → SchemaIsComplete s
  unfolding parse_schema
  parse_schema-SchemaIsComplete j s h = record {
    declared = λ k m. has_of_misses s.required (keys s.properties) k (ground arith) m;
  }

  parse_operation_rule-SchemaIsComplete :
      (j : Json) (r : OperationRule)
      → parse_operation_rule c j ≡ some r
      → SchemaIsComplete r.parameter_schema
  unfolding parse_operation_rule
  parse_operation_rule-SchemaIsComplete (obj fs) r h =
      elim (Option-cases (lookup "parameter_schema" (entries fs) >>= parse_schema c)) [
        | inl e ↦ absurd (ground arith)
        | inr (s, e) ↦
            let (j, _, parsed) =
              bind-eq-some (lookup "parameter_schema" (entries fs)) (parse_schema c) e in
            let same : r.parameter_schema ≡ s = ground arith in
            rw same (parse_schema-SchemaIsComplete j s parsed)
      ]
  parse_operation_rule-SchemaIsComplete _ r h = absurd (ground arith)

  -- The rules of a tool that was read, by where they were read from.
  parse_tool-rules :
      (j : Json) (t : ToolPermission)
      → parse_tool c j ≡ some t
      → (o : Option Json) × ((o >>= parse_dict (parse_operation_rule c)) ≡ some t.operation_rules)
  unfolding parse_tool
  parse_tool-rules (obj fs) t h = (lookup "operation_rules" (entries fs), ground arith)
  parse_tool-rules _ t h = absurd (ground arith)

  parse_tool-ToolIsComplete :
      (j : Json) (t : ToolPermission) → parse_tool c j ≡ some t → ToolIsComplete t
  unfolding parse_tool
  parse_tool-ToolIsComplete j t h = record {
    has_rule =
        λ op m. has_of_misses t.allowed_operations (keys t.operation_rules) op (ground arith) m;
    has_operation =
        λ op m. has_of_misses (keys t.operation_rules) t.allowed_operations op (ground arith) m;
    schema = λ op rule m.
        let (o, read) = parse_tool-rules j t h in
        let (i, parsed) =
          lookup-parse_dict (parse_operation_rule c) o t.operation_rules op rule read m in
        parse_operation_rule-SchemaIsComplete i rule parsed;
  }

  model_validate-tools :
      (j : Json) (d : ManifestDocument)
      → model_validate c j ≡ some d
      → (o : Option Json) × ((o >>= parse_dict (parse_tool c)) ≡ some d.tools)
  unfolding model_validate
  model_validate-tools (obj fs) d h = (lookup "tools" (entries fs), ground arith)
  model_validate-tools _ d h = absurd (ground arith)

  -- A document that `model_validate` accepts is well formed: it names a tool, its message has 1 to
  -- 500 characters, and in each of its tools exactly the allowed operations have a rule, whose
  -- schema declares every parameter that it requires.
  pub model_validate-IsWellFormed :
      (j : Json) (d : ManifestDocument) → model_validate c j ≡ some d → IsWellFormed d
  unfolding model_validate
  model_validate-IsWellFormed j d h = record {
    tools_given = ground arith;
    message_bounds = ground arith;
    tool = λ name t m.
        let (o, read) = model_validate-tools j d h in
        let (i, parsed) = lookup-parse_dict (parse_tool c) o d.tools name t read m in
        parse_tool-ToolIsComplete i t parsed;
  }
