-- ===== src/Seed/Data.antt =====
-- The constants of persistence/seed.py.
use tool_permission_enforcer.Base.{String, Bool, List, [], ◌∷◌}
use tool_permission_enforcer.Base.Dict.{Dict}
use tool_permission_enforcer.Base.Json.{Json, bool, int, str, arr, obj, pos, fields, from_list}
use tool_permission_enforcer.Domain.Models.{CrmCustomer}

abbrev pub seed_agent_id : String
seed_agent_id = "agent_support_001"

abbrev pub seed_tool_id : String
seed_tool_id = "tool_crm_001"

abbrev pub seed_manifest_id : String
seed_manifest_id = "support-agent-readonly-v1"

-- A `dict` and a `list` of Python.
abbrev pub dict_of : Dict Json → Json
dict_of d = obj (fields d)

abbrev pub list_of : List Json → Json
list_of xs = arr (from_list xs)

abbrev read_customer_rule : Json
read_customer_rule = dict_of (
    (
      "parameter_schema",
      dict_of (
          ("required", list_of (str "customer_id" ∷ []))
          ∷ ("properties", dict_of (("customer_id", dict_of (("type", str "string") ∷ [])) ∷ []))
          ∷ []),
    )
    ∷ (
      "data_scope",
      dict_of (
          (
            "all",
            list_of (
                dict_of (
                  ("type", str "session_value_equals_parameter")
                  ∷ ("session_claim", str "customer_id")
                  ∷ ("parameter", str "customer_id")
                  ∷ [])
                ∷ []),
          )
          ∷ []),
    )
    ∷ [])

abbrev pub read_only_manifest : Json
read_only_manifest = dict_of (
    ("schema_version", str "1.0")
    ∷ ("manifest_id", str seed_manifest_id)
    ∷ ("agent_id", str seed_agent_id)
    ∷ (
      "tools",
      dict_of (
          (
            "crm",
            dict_of (
                ("allowed_operations", list_of (str "read_customer" ∷ []))
                ∷ ("operation_rules", dict_of (("read_customer", read_customer_rule) ∷ []))
                ∷ []),
          )
          ∷ []),
    )
    ∷ ("deny_message", str "This operation is not permitted for the current agent and session.")
    ∷ [])

abbrev typed : String → Json
typed name = dict_of (("type", str name) ∷ [])

abbrev pub crm_request_schema : Json
crm_request_schema = dict_of (
    ("type", str "object")
    ∷ ("required", list_of (str "customer_id" ∷ []))
    ∷ (
      "properties",
      dict_of (
          ("customer_id", dict_of (("type", str "string") ∷ ("maxLength", int (pos 64)) ∷ []))
          ∷ ("changes", typed "object")
          ∷ []),
    )
    ∷ ("additionalProperties", bool Bool.false)
    ∷ [])

abbrev pub crm_response_schema : Json
crm_response_schema = dict_of (
    ("type", str "object")
    ∷ ("required", list_of (str "customer_id" ∷ []))
    ∷ (
      "properties",
      dict_of (
          ("customer_id", typed "string")
          ∷ ("name", typed "string")
          ∷ ("email", typed "string")
          ∷ ("support_tier", typed "string")
          ∷ ("address", typed "string")
          ∷ []),
    )
    ∷ [])

abbrev pub seed_customers : List CrmCustomer
seed_customers =
    record {
      customer_id = "customer_1001";
      name = "Asha Rao";
      email = "asha.rao@example.invalid";
      support_tier = "gold";
      address = "101 Synthetic Avenue, Bengaluru";
    }
    ∷ record {
      customer_id = "customer_1002";
      name = "Vikram Shah";
      email = "vikram.shah@example.invalid";
      support_tier = "silver";
      address = "202 Demonstration Road, Pune";
    }
    ∷ record {
      customer_id = "customer_1003";
      name = "Meera Nair";
      email = "meera.nair@example.invalid";
      support_tier = "standard";
      address = "303 Example Street, Kochi";
    }
    ∷ []
