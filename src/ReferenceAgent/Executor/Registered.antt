-- ===== src/ReferenceAgent/Executor/Registered.antt =====
-- The executor accepts the operations of the registry and no others.
use tool_permission_enforcer.Base.{
  Bool, false, Option, some, ◌&&◌, ◌||◌, ◌≡◌, arith, string_eq, any, if◌then◌else◌,
}
use tool_permission_enforcer.Base.Dict.{lookup}
use tool_permission_enforcer.Base.Json.{Json, str, obj, entries}
use tool_permission_enforcer.ReferenceAgent.Registry.{tools}
use tool_permission_enforcer.ReferenceAgent.Executor.{equals, failure, executed, execute_tool}

abbrev field_is : Json → Option Json → Bool
field_is j (some (str s)) = equals j s
field_is j _ = false

-- An entry of the registry that names the tool and the operation.
abbrev names : Json → Json → Json → Bool
names tool operation (obj fs) =
    field_is tool (lookup "tool" (entries fs))
    && field_is operation (lookup "operation" (entries fs))
names tool operation _ = false

abbrev pub is_registered : Json → Json → Bool
is_registered tool operation = any (names tool operation) tools

is_registered-lem :
    (tool operation : Json)
    → is_registered tool operation ≡ (
        (equals tool "crm" && equals operation "read_customer")
        || (equals tool "crm" && equals operation "write_customer")
        || (equals tool "crm" && equals operation "delete_customer"))
unfolding string_eq
is_registered-lem tool operation = ground arith

-- A tool and an operation that the registry names are executed with their parameters; every other
-- call is answered by an error, which says what is unknown.
pub execute_tool-is_registered :
    (tool operation parameters : Json)
    → execute_tool tool operation parameters ≡ (
        if is_registered tool operation
        then executed tool operation parameters
        else failure (if equals tool "crm" then "Unknown operation." else "Unknown tool."))
unfolding execute_tool
execute_tool-is_registered tool operation parameters =
    rw (is_registered-lem tool operation) (ground arith)
