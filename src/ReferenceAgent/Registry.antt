-- ===== src/ReferenceAgent/Registry.antt =====
-- `TOOLS` of services/reference_agent/tool_registry.py.
use tool_permission_enforcer.Base.{String, List, [], ◌∷◌}
use tool_permission_enforcer.Base.Json.{Json, str, obj, Fields, field, end}

abbrev entry : String → String → Fields → Json
entry operation description parameters = obj (
    field "tool" (str "crm") (
      field "operation" (str operation)
        (field "description" (str description) (field "parameters" (obj parameters) end))))

abbrev pub tools : List Json
tools =
    entry "read_customer" "Read customer details from CRM." (field "customer_id" (str "string") end)
    ∷ entry "write_customer" "Update customer details." (
        field "customer_id" (str "string") (
          field "changes"
            (obj (
              field "name" (str "string") (
                field "email" (str "string")
                  (field "support_tier" (str "string") (field "address" (str "string") end)))))
            end))
    ∷ entry "delete_customer" "Delete a customer." (field "customer_id" (str "string") end)
    ∷ []
