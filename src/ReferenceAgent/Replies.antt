-- ===== src/ReferenceAgent/Replies.antt =====
-- When the agent executes a tool, and when it passes the reply of the model on.
use tool_permission_enforcer.Base.{
  String, Option, none, some, List, ◌∷◌, ◌≡◌, ◌⊎◌, inl, inr, refl, ◌≢◌, ap, subst, sym, arith,
  string_eq, Option-cases,
}
use tool_permission_enforcer.Base.Dict.{has_key_iff, lookup}
use tool_permission_enforcer.Base.Json.{
  Json, str, arr, obj, null, bool, int, float, Fields, field, end, entries,
}
use tool_permission_enforcer.Base.Outcome.{Result, ok}
use tool_permission_enforcer.Domain.Errors.{Error}
use tool_permission_enforcer.ReferenceAgent.Executor.{execute_tool}
use tool_permission_enforcer.ReferenceAgent.{
  Message, ChatRequest, model, messages, text_or_null, is_in, subscript, run_tool_call, caught,
  tool_result, respond, ask_gpt, chat,
}

-- An object with the three keys.
pub record HasToolCall (fs : Fields) (tool operation parameters : Json) : Type 0 where
  pub tool_is : lookup "tool" (entries fs) ≡ some tool
  pub operation_is : lookup "operation" (entries fs) ≡ some operation
  pub parameters_is : lookup "parameters" (entries fs) ≡ some parameters

abbrev IsComplete : Fields → Type 0
IsComplete fs =
    (tool : Json) × (operation : Json) × (parameters : Json) × HasToolCall fs tool operation
      parameters

run_tool_call_complete :
    (fs : Fields) (tool operation parameters : Json)
    → HasToolCall fs tool operation parameters
    → run_tool_call (obj fs) ≡ ok (some (execute_tool tool operation parameters))
unfolding run_tool_call is_in subscript
run_tool_call_complete fs tool operation parameters h =
    ground (arith, h.tool_is, h.operation_is, h.parameters_is, has_key_iff "tool" (entries fs))

IsComplete-cases : (fs : Fields) → IsComplete fs ⊎ ¬ (IsComplete fs)
IsComplete-cases fs = elim (Option-cases (lookup "tool" (entries fs))) [
  | inl missing ↦ inr (λ h. let (t, o, p, has) = h in ground (arith, has.tool_is))
  | inr (t, tool) ↦ elim (Option-cases (lookup "operation" (entries fs))) [
    | inl missing ↦ inr (λ h. let (t, o, p, has) = h in ground (arith, has.operation_is))
    | inr (o, operation) ↦ elim (Option-cases (lookup "parameters" (entries fs))) [
      | inl missing ↦ inr (λ h. let (t, o, p, has) = h in ground (arith, has.parameters_is))
      | inr (p, parameters) ↦
          inl (
            t,
            o,
            p,
            record { tool_is = tool; operation_is = operation; parameters_is = parameters },
          )
    ]
  ]
]

run_tool_call_incomplete :
    (fs : Fields) → ¬ (IsComplete fs) → caught (run_tool_call (obj fs)) ≡ none
unfolding run_tool_call is_in subscript
run_tool_call_incomplete fs missing = elim (Option-cases (lookup "tool" (entries fs))) [
  | inl no_tool ↦ ground (arith, has_key_iff "tool" (entries fs))
  | inr (t, tool) ↦ elim (Option-cases (lookup "operation" (entries fs))) [
    | inl no_operation ↦ ground (arith, has_key_iff "tool" (entries fs))
    | inr (o, operation) ↦ elim (Option-cases (lookup "parameters" (entries fs))) [
      | inl no_parameters ↦ ground (arith, has_key_iff "tool" (entries fs))
      | inr (p, parameters) ↦ absurd (
          missing (
            t,
            o,
            p,
            record { tool_is = tool; operation_is = operation; parameters_is = parameters },
          ))
    ]
  ]
]

-- The reply is the JSON text of an object with the three keys.
pub record IsToolCall (loads : String → Option Json) (reply : Option String)
    (tool operation parameters : Json) : Type 0 where
  pub text : String
  pub given : reply ≡ some text
  pub fs : Fields
  pub parsed : loads text ≡ some (obj fs)
  pub has : HasToolCall fs tool operation parameters

abbrev pub passed_on : Option String → Json
passed_on reply = obj (field "response" (text_or_null reply) end)

module _ (loads : String → Option Json) where
  abbrev pub IsAnyToolCall : Option String → Type 0
  IsAnyToolCall reply =
      (tool : Json) × (operation : Json) × (parameters : Json) × IsToolCall loads reply tool
        operation parameters

  -- What a parsed reply leads to.
  Handled : Option String → Type 0
  Handled reply =
      ((tool : Json) × (operation : Json) × (parameters : Json) × IsToolCall loads reply tool
          operation parameters
        × (respond loads reply ≡ execute_tool tool operation parameters))
      ⊎ (¬ (IsAnyToolCall reply) × (respond loads reply ≡ passed_on reply))

  respond-some :
      (text : String) (j result : Json)
      → loads text ≡ some j
      → caught (run_tool_call j) ≡ some result
      → respond loads (some text) ≡ result
  unfolding respond tool_result
  respond-some text j result parsed called = ground arith

  respond-none :
      (text : String) (j : Json)
      → loads text ≡ some j
      → caught (run_tool_call j) ≡ none
      → respond loads (some text) ≡ passed_on (some text)
  unfolding respond tool_result
  respond-none text j parsed called = ground arith

  -- A reply is parsed in one way.
  IsToolCall-fs :
      (text : String) (fs : Fields)
      → loads text ≡ some (obj fs)
      → IsAnyToolCall (some text)
      → IsComplete fs
  IsToolCall-fs text fs parsed (t, o, p, x) =
      let same : text ≡ x.text = ground (arith, x.given) in
      let fields_same : fs ≡ x.fs = ground (arith, x.parsed) in
      (t, o, p, subst (λ f. HasToolCall f t o p) (sym fields_same) x.has)

  object-Handled : (text : String) (fs : Fields) → loads text ≡ some (obj fs) → Handled (some text)
  unfolding Handled
  object-Handled text fs parsed = elim (IsComplete-cases fs) [
    | inl (t, o, p, has) ↦ inl (
      t,
      o,
      p,
      record { text = text; given = refl; fs = fs; parsed = parsed; has = has },
      respond-some text (obj fs) (execute_tool t o p) parsed
          (ap caught (run_tool_call_complete fs t o p has)),
    )
    | inr missing ↦ inr (
      λ any_call. missing (IsToolCall-fs text fs parsed any_call),
      respond-none text (obj fs) parsed (run_tool_call_incomplete fs missing),
    )
  ]

  -- Any other value: no dictionary, so it has no keys.
  other-Handled :
      (text : String) (j : Json)
      → loads text ≡ some j
      → ((fs : Fields) → j ≢ obj fs)
      → caught (run_tool_call j) ≡ none
      → Handled (some text)
  unfolding Handled
  other-Handled text j parsed other nothing = inr (
    λ (t, o, p, x).
        let same : text ≡ x.text = ground (arith, x.given) in other x.fs (ground (arith, x.parsed)),
    respond-none text j parsed nothing,
  )

  parsed-Handled : (text : String) (j : Json) → loads text ≡ some j → Handled (some text)
  unfolding run_tool_call is_in subscript
  parsed-Handled text (obj fs) parsed = object-Handled text fs parsed
  parsed-Handled text null parsed = other-Handled text null parsed (λ fs. cc) refl
  parsed-Handled text (bool b) parsed = other-Handled text (bool b) parsed (λ fs. cc) refl
  parsed-Handled text (int z) parsed = other-Handled text (int z) parsed (λ fs. cc) refl
  parsed-Handled text (float x) parsed = other-Handled text (float x) parsed (λ fs. cc) refl
  parsed-Handled text (str s) parsed = other-Handled text (str s) parsed (λ fs. cc) (ground arith)
  parsed-Handled text (arr xs) parsed = other-Handled text (arr xs) parsed (λ fs. cc) (ground arith)

  reply-Handled : (reply : Option String) → Handled reply
  unfolding Handled respond tool_result
  reply-Handled none = inr (λ (t, o, p, x). ground (arith, x.given), refl)
  reply-Handled (some text) = elim (Option-cases (loads text)) [
    | inl invalid ↦ inr (λ (t, o, p, x). ground (arith, x.given, x.parsed), ground arith)
    | inr (j, parsed) ↦ parsed-Handled text j parsed
  ]

  -- Where the client answers with a choice, the agent answers with the result of the executor if the
  -- reply is the JSON text of an object with the keys `tool`, `operation` and `parameters`, and with
  -- the reply itself otherwise, whatever it is.
  pub chat-answers :
      (dumps : List Json → String)
      (complete : String → List Message → Result Error (List (Option String)))
      (request : ChatRequest) (reply : Option String) (rest : List (Option String))
      → complete model (messages dumps request.message) ≡ ok (reply ∷ rest)
      → ((tool : Json) × (operation : Json) × (parameters : Json) × IsToolCall loads reply tool
            operation parameters
          × (chat dumps loads complete request
              ≡ ok (record { response = execute_tool tool operation parameters })))
        ⊎ (¬ (IsAnyToolCall reply)
            × (chat dumps loads complete request ≡ ok (record { response = passed_on reply })))
  unfolding chat ask_gpt Handled
  chat-answers dumps complete request reply rest answered = elim (reply-Handled reply) [
    | inl (t, o, p, x, result) ↦ inl (t, o, p, x, ground (arith, result))
    | inr (other, result) ↦ inr (other, ground (arith, result))
  ]
