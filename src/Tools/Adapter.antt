-- ===== src/Tools/Adapter.antt =====
-- `ToolAdapter` and `ToolExecutionResult` of tools/crm.py. What an adapter answers may depend on the
-- calls that it was given before, oldest first.
use tool_permission_enforcer.Base.{ℕ, String, Option, List}
use tool_permission_enforcer.Base.Dict.{Dict}
use tool_permission_enforcer.Base.Json.{Json}
use tool_permission_enforcer.Base.Outcome.{Result}
use tool_permission_enforcer.Domain.Errors.{Error}

pub record ToolRequest : Type 0 where
  pub tool : String
  pub operation : String
  pub parameters : Dict Json

pub record ToolExecutionResult : Type 0 where
  pub result : Option Json
  pub upstream_status_code : ℕ

abbrev pub ToolAdapter : Type 0
ToolAdapter = List ToolRequest → ToolRequest → Result Error ToolExecutionResult
