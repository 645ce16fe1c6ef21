-- ===== src/Tools/Crm.antt =====
-- `HTTPCRMAdapter` of tools/crm.py. The HTTP client is the parameter `send`: it answers a request by
-- a response, a timeout, another transport error, or an error that is no `HTTPError`. `show` is Python's `str` of a JSON value that is
-- no text, which a path may be built from.
use Prim.Native.String.{◌++◌ as ◌<>◌}
use tool_permission_enforcer.Base.{
  ℕ, String, not, Option, none, some, List, ◌==◌, string_eq, nat_eq, leb, if◌then◌else◌,
}
use tool_permission_enforcer.Base.Dict.{Dict, lookup}
use tool_permission_enforcer.Base.Json.{Json, str, obj, Fields}
use tool_permission_enforcer.Base.Outcome.{Result, ok, err}
use tool_permission_enforcer.Domain.Errors.{Error, tool_execution_error, key_error, value_error}
use tool_permission_enforcer.Tools.Adapter.{ToolRequest, ToolExecutionResult, ToolAdapter}

pub data Method : Type 0 where
  get patch delete : Method

pub record HttpRequest : Type 0 where
  pub method : Method
  pub path : String
  pub internal_key : String
  pub body : Option Fields

-- A response has its status and its body, if that is JSON. `unsendable` is an error of the client
-- that is no `HTTPError`: the path makes no URL, or the body cannot be encoded.
pub data HttpReply : Type 0 where
  timeout transport_error unsendable : HttpReply
  response : ℕ → Option Json → HttpReply

abbrev pub tool_error : {A : Type 0} → String → String → Result Error A
tool_error code message = err (tool_execution_error code message none)

-- What the adapter makes of the reply.
unfoldable pub interpret : HttpReply → Result Error ToolExecutionResult
interpret timeout = tool_error "UPSTREAM_TOOL_TIMEOUT" "The protected tool timed out"
interpret transport_error =
    tool_error "UPSTREAM_TOOL_ERROR" "The protected tool could not be reached"
interpret unsendable = err value_error
interpret (response status body) =
    if leb 400 status
    then err (
        tool_execution_error "UPSTREAM_TOOL_ERROR" "The protected tool rejected the request"
          (some status))
    else if status == 204
    then ok (record { result = none; upstream_status_code = status })
    else elim body [
      | none ↦ err value_error
      | some j ↦ ok (record { result = some j; upstream_status_code = status })
    ]

module _ (show : Json → String) (internal_key : String) where
  abbrev text_of : Json → String
  text_of (str s) = s
  text_of j = show j

  abbrev request : Method → Json → Option Fields → HttpRequest
  request method customer_id body = record {
    method = method;
    path = "/customers/" <> text_of customer_id;
    internal_key = internal_key;
    body = body;
  }

  -- `changes = parameters.get("changes")`, which has to be an object
  write_request : Json → Option Json → Result Error HttpRequest
  write_request customer_id (some (obj changes)) = ok (request patch customer_id (some changes))
  write_request customer_id _ =
      tool_error "INVALID_PARAMETERS" "write_customer requires a changes object"

  request_for : String → Json → Dict Json → Result Error HttpRequest
  unfolding write_request
  request_for operation customer_id parameters =
      if operation == "read_customer"
      then ok (request get customer_id none)
      else if operation == "write_customer"
      then write_request customer_id (lookup "changes" parameters)
      else if operation == "delete_customer"
      then ok (request delete customer_id none)
      else tool_error "OPERATION_NOT_SUPPORTED"
          "The registered adapter does not support this operation"

  -- The steps before the request is sent. A missing `customer_id` is a `KeyError`.
  unfoldable pub prepare : ToolRequest → Result Error HttpRequest
  unfolding request_for
  prepare r =
      if not (r.tool == "crm")
      then tool_error "TOOL_NOT_REGISTERED" "No adapter exists for the tool"
      else elim (lookup "customer_id" r.parameters) [
        | none ↦ err key_error
        | some customer_id ↦ request_for r.operation customer_id r.parameters
      ]

  unfoldable pub execute_crm :
      (HttpRequest → HttpReply) → ToolRequest → Result Error ToolExecutionResult
  unfolding prepare interpret
  execute_crm send r = elim (prepare r) [ err e ↦ err e | ok request ↦ interpret (send request) ]

  -- The adapter, for a client whose replies depend on the calls before.
  abbrev pub crm_adapter : (List ToolRequest → HttpRequest → HttpReply) → ToolAdapter
  crm_adapter send history r = execute_crm (send history) r
