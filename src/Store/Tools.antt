-- ===== src/Store/Tools.antt =====
-- `ToolDefinitionRepository`
use tool_permission_enforcer.Base.{
  ℕ, String, Bool, ◌||◌, Option, [], ◌∷◌, ◌++◌, ◌==◌, string_eq, first_where, any, length,
}
use tool_permission_enforcer.Base.Outcome.{◌>>=◌, ◌>>◌, pure, raise_if, gets, modify}
use tool_permission_enforcer.Domain.Errors.{integrity_error}
use tool_permission_enforcer.Domain.Models.{ToolDefinition}
use tool_permission_enforcer.Store.{Db, Action}

unfoldable pub get : String → Db → Option ToolDefinition
get tool_id db = first_where (λ t. t.tool_id == tool_id) db.tools

unfoldable pub get_by_name : String → Db → Option ToolDefinition
get_by_name name db = first_where (λ t. t.name == name) db.tools

abbrev clashes : ToolDefinition → ToolDefinition → Bool
clashes new old = old.tool_id == new.tool_id || old.name == new.name

unfoldable pub add : ToolDefinition → Action ToolDefinition
add tool = do
  raise_if (← gets (λ db. any (clashes tool) db.tools)) integrity_error
  modify (λ db. record db { tools = db.tools ++ (tool ∷ []) })
  pure tool

abbrev pub count : Db → ℕ
count db = length db.tools
