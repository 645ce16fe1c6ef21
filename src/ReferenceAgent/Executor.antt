-- ===== src/ReferenceAgent/Executor.antt =====
-- services/reference_agent/tool_executor.py. The arguments are any JSON values; the prints are left
-- out.
pub mod Registered
use tool_permission_enforcer.Base.{
  String, Bool, true, false, ◌==◌, string_eq, not, ◌||◌, if◌then◌else◌,
}
use tool_permission_enforcer.Base.Json.{Json, str, obj, field, end}

-- `j == s`, for a text `s`
abbrev pub equals : Json → String → Bool
equals (str t) s = t == s
equals _ s = false

abbrev pub failure : String → Json
failure message = obj (field "error" (str message) end)

-- What every branch of a known operation returns.
abbrev pub executed : Json → Json → Json → Json
executed tool operation parameters =
    obj (field "tool" tool (field "operation" operation (field "parameters" parameters end)))

unfoldable pub execute_tool : Json → Json → Json → Json
execute_tool tool operation parameters =
    if not (equals tool "crm")
    then failure "Unknown tool."
    else if equals operation "read_customer"
    then executed tool operation parameters
    else if equals operation "write_customer"
    then executed tool operation parameters
    else if equals operation "delete_customer"
    then executed tool operation parameters
    else failure "Unknown operation."
