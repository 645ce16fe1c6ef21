-- ===== src/Tests/Agent.antt =====
-- The reference agent, on a reply that names a tool.
use tool_permission_enforcer.Base.{
  String, Option, none, some, List, [], ◌∷◌, ◌≡◌, ◌⊎◌, ◌==◌, refl, string_eq, if◌then◌else◌,
}
use tool_permission_enforcer.Base.Json.{Json, str, obj, field, end}
use tool_permission_enforcer.Base.Outcome.{Result, ok}
use tool_permission_enforcer.Domain.Errors.{Error}
use tool_permission_enforcer.ReferenceAgent.{Message, ChatRequest, chat}
use tool_permission_enforcer.ReferenceAgent.Executor.{equals, failure, executed, execute_tool}
use tool_permission_enforcer.ReferenceAgent.Executor.Registered.{
  is_registered, execute_tool-is_registered,
}
use tool_permission_enforcer.ReferenceAgent.Replies.{
  IsToolCall, IsAnyToolCall, passed_on, chat-answers,
}

abbrev call_text : String
call_text =
    "{\"tool\":\"crm\",\"operation\":\"read_customer\",\"parameters\":{\"customer_id\":\"C-1\"}}"

abbrev call_parameters : Json
call_parameters = obj (field "customer_id" (str "C-1") end)

-- Knows one text.
abbrev loads : String → Option Json
loads text =
    if text == call_text
    then some (
        obj (
          field "tool" (str "crm")
            (field "operation" (str "read_customer") (field "parameters" call_parameters end))))
    else none

abbrev dumps : List Json → String
dumps js = "[]"

abbrev complete : String → List Message → Result Error (List (Option String))
complete model messages = ok (some call_text ∷ [])

abbrev request : ChatRequest
request = record { message = "Show me customer C-1" }

executes :
    chat dumps loads complete request
    ≡ ok (record { response = executed (str "crm") (str "read_customer") call_parameters })
unfolding string_eq tool_permission_enforcer.ReferenceAgent.chat
    tool_permission_enforcer.ReferenceAgent.ask_gpt tool_permission_enforcer.ReferenceAgent.respond
    tool_permission_enforcer.ReferenceAgent.tool_result
    tool_permission_enforcer.ReferenceAgent.run_tool_call
    tool_permission_enforcer.ReferenceAgent.is_in tool_permission_enforcer.ReferenceAgent.subscript
    tool_permission_enforcer.ReferenceAgent.Executor.execute_tool
executes = refl

chat-answers_example :
    ((tool : Json) × (operation : Json) × (parameters : Json) × IsToolCall loads
        (some call_text)
        tool
        operation
        parameters
      × (chat dumps loads complete request
          ≡ ok (record { response = execute_tool tool operation parameters })))
    ⊎ (¬ (IsAnyToolCall loads (some call_text))
        × (chat dumps loads complete request
            ≡ ok (record { response = passed_on (some call_text) })))
chat-answers_example = chat-answers loads dumps complete request (some call_text) [] refl

execute_tool-is_registered_example :
    execute_tool (str "crm") (str "read_customer") call_parameters ≡ (
      if is_registered (str "crm") (str "read_customer")
      then executed (str "crm") (str "read_customer") call_parameters
      else failure (if equals (str "crm") "crm" then "Unknown operation." else "Unknown tool."))
execute_tool-is_registered_example =
    execute_tool-is_registered (str "crm") (str "read_customer") call_parameters
