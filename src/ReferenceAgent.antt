-- ===== src/ReferenceAgent.antt =====
-- services/reference_agent: `Registry` is tool_registry.py, `Executor` tool_executor.py, and this
-- file llm.py, api.py and schemas.py. Parameters are `json.loads`, `json.dumps` with an indent of
-- two, and the completion of a chat by the client of the model.
pub mod Registry
pub mod Executor
pub mod Replies
use Prim.Native.String.{◌++◌ as ◌<>◌}
use tool_permission_enforcer.Base.{
  String, Bool, true, false, ◌||◌, ◌&&◌, nat_eq, ℕ, Option, none, some, List, [], ◌∷◌, ◌==◌,
  string_eq, any, head_of, if◌then◌else◌,
}
use tool_permission_enforcer.Base.Dict.{has_key, lookup}
use tool_permission_enforcer.Base.Json.{
  Json, str, arr, obj, null, Fields, field, end, entries, Items, items,
}
use tool_permission_enforcer.Base.Outcome.{Result, ok, err}
use tool_permission_enforcer.Base.Text.{codes}
use tool_permission_enforcer.Domain.Errors.{Error, key_error, type_error, index_error}
use tool_permission_enforcer.ReferenceAgent.Registry.{tools}
use tool_permission_enforcer.ReferenceAgent.Executor.{execute_tool}

-- `MODEL`
abbrev pub model : String
model = "llama3.2:3b"

pub record Message : Type 0 where
  pub role : String
  pub content : String

pub record ChatRequest : Type 0 where
  pub message : String

pub record ChatResponse : Type 0 where
  pub response : Json

abbrev is_prefix : List ℕ → List ℕ → Bool
is_prefix [] ys = true
is_prefix (x ∷ xs) [] = false
is_prefix (x ∷ xs) (y ∷ ys) = x == y && is_prefix xs ys

abbrev is_infix : List ℕ → List ℕ → Bool
is_infix xs [] = is_prefix xs []
is_infix xs (y ∷ ys) = is_prefix xs (y ∷ ys) || is_infix xs ys

abbrev is_text : String → Json → Bool
is_text s (str t) = s == t
is_text s _ = false

-- `k in j`: a key of a dictionary, an element of a list, or a part of a text.
unfoldable pub is_in : String → Json → Result Error Bool
is_in k (obj fs) = ok (has_key k (entries fs))
is_in k (arr xs) = ok (any (is_text k) (items xs))
is_in k (str s) = ok (is_infix (codes k) (codes s))
is_in k _ = err type_error

-- `j[k]`, for a text `k`
unfoldable pub subscript : Json → String → Result Error Json
subscript (obj fs) k = elim (lookup k (entries fs)) [ none ↦ err key_error | some v ↦ ok v ]
subscript _ k = err type_error

call_with : Result Error Json → Result Error Json → Result Error Json → Result Error Json
call_with (ok tool) (ok operation) (ok parameters) = ok (execute_tool tool operation parameters)
call_with (err e) _ _ = err e
call_with _ (err e) _ = err e
call_with _ _ (err e) = err e

-- The body of the `try` after `json.loads`: a result that is returned, if there is one.
unfoldable pub run_tool_call : Json → Result Error (Option Json)
unfolding call_with
run_tool_call tool_call = elim (is_in "tool" tool_call) [
  | err e ↦ err e
  | ok present ↦
      let called =
        call_with (subscript tool_call "tool") (subscript tool_call "operation")
          (subscript tool_call "parameters") in
      if present then elim called [ ok result ↦ ok (some result) | err e ↦ err e ] else ok none
]

-- `except Exception: pass`
abbrev pub caught : Result Error (Option Json) → Option Json
caught (ok found) = found
caught (err e) = none

abbrev pub text_or_null : Option String → Json
text_or_null none = null
text_or_null (some s) = str s

module _ (loads : String → Option Json) where
  -- `json.loads(None)` raises, like a text that is no JSON.
  unfoldable pub tool_result : Option String → Option Json
  tool_result none = none
  tool_result (some reply) = elim (loads reply) [
    | none ↦ none
    | some tool_call ↦ caught (run_tool_call tool_call)
  ]

  unfoldable pub respond : Option String → Json
  respond reply = elim (tool_result reply) [
    | some result ↦ result
    | none ↦ obj (field "response" (text_or_null reply) end)
  ]

module _ (dumps : List Json → String) where
  abbrev pub system_prompt : String
  system_prompt =
      "\nYou are an AI CRM Assistant.\n\nAvailable tools:\n\n"
      <> dumps tools
      <> "\n\nRules:\n\n1. If the user wants to retrieve a customer, respond ONLY with:\n\n{\n    \"tool\":\"crm\",\n    \"operation\":\"read_customer\",\n    \"parameters\": {\n        \"customer_id\":\"CUSTOMER_ID\"\n    }\n}\n"
      <> "\n2. If the user wants to update a customer, respond ONLY with:\n\n{\n    \"tool\":\"crm\",\n    \"operation\":\"write_customer\",\n    \"parameters\": {\n        \"customer_id\":\"CUSTOMER_ID\",\n        \"changes\": {\n            \"email\":\"new@email.com\"\n        }\n    }\n}\n"
      <> "\n3. If the user wants to delete a customer, respond ONLY with:\n\n{\n    \"tool\":\"crm\",\n    \"operation\":\"delete_customer\",\n    \"parameters\": {\n        \"customer_id\":\"CUSTOMER_ID\"\n    }\n}\n"
      <> "\nIf a tool is required,\nrespond ONLY with JSON.\n\nOtherwise answer normally.\n"

  abbrev pub messages : String → List Message
  messages message =
      record { role = "system"; content = system_prompt }
      ∷ record { role = "user"; content = message }
      ∷ []

  module _ (loads : String → Option Json)
      (complete : String → List Message → Result Error (List (Option String))) where
    -- The client answers with the contents of the choices.
    unfoldable pub ask_gpt : String → Result Error Json
    ask_gpt message = elim (complete model (messages message)) [
      | err e ↦ err e
      | ok choices ↦ elim (head_of choices) [
        | none ↦ err index_error
        | some reply ↦ ok (respond loads reply)
      ]
    ]

    unfoldable pub chat : ChatRequest → Result Error ChatResponse
    unfolding ask_gpt
    chat request = elim (ask_gpt request.message) [
      | err e ↦ err e
      | ok result ↦ ok (record { response = result })
    ]
