-- ===== src/Tests/Calls.antt =====
-- The properties of tool calls, for a call that the seeded manifest permits.
use tool_permission_enforcer.Base.{
  ℕ, ◌≤◌, ◌+◌, String, true, false, Option, none, some, List, [], ◌∷◌, ◌≡◌, ◌⊎◌, inl, inr, refl,
  arith, string_eq, any,
}
use tool_permission_enforcer.Base.Outcome.{ok, err}
use tool_permission_enforcer.Base.Json.{obj, fields}
use tool_permission_enforcer.Store.Events
use tool_permission_enforcer.Store.Agents
use tool_permission_enforcer.Store.Sessions
use tool_permission_enforcer.Store.Manifests
use tool_permission_enforcer.Policy.Evaluator.{evaluate}
use tool_permission_enforcer.Audit.Service.{has_idempotency_key, record_event, new_event}
use tool_permission_enforcer.Audit.Event.{pending_event}
use tool_permission_enforcer.ToolCalls.{
  Call, Run, World, Verdict, ToolCallOutcome, decide, execute, execute_new, execute_permitted,
  finish, refuse, refuse_duplicate, serve,
}
use tool_permission_enforcer.ToolCalls.Forwarding.{Forwarded, execute-Forwarded}
use tool_permission_enforcer.ToolCalls.Idempotency.{IsOnce, serve-IsOnce}
use tool_permission_enforcer.Domain.Errors.{Error}
use tool_permission_enforcer.ToolCalls.Forwarding.{answer_for}
use tool_permission_enforcer.ToolCalls.Raises.{Raised, execute-raises}
use tool_permission_enforcer.ToolCalls.Answers.{IsAudited, execute-IsAudited}
use tool_permission_enforcer.Tests.Fixture.{
  env, call, run, next_run, world, world-IsOnce, parameters,
}

execute-Forwarded_example :
    ((execute env call run world).1.forwarded ≡ world.forwarded) ⊎ Forwarded env call run world
execute-Forwarded_example = execute-Forwarded env call run world

-- The call is forwarded, and the next one with its key is not.
two_calls : (serve env world ((call, run) ∷ (call, next_run) ∷ [])).forwarded ≡ call ∷ []
unfolding tool_permission_enforcer.ToolCalls.serve tool_permission_enforcer.ToolCalls.execute
    tool_permission_enforcer.ToolCalls.execute_new
    tool_permission_enforcer.ToolCalls.execute_permitted tool_permission_enforcer.ToolCalls.finish
    tool_permission_enforcer.ToolCalls.refuse tool_permission_enforcer.ToolCalls.refuse_duplicate
    tool_permission_enforcer.ToolCalls.audit_input
    tool_permission_enforcer.ToolCalls.audit_input_with
    tool_permission_enforcer.Policy.Document.model_validate
    tool_permission_enforcer.Policy.Document.parse_tool
    tool_permission_enforcer.Policy.Document.parse_operation_rule
    tool_permission_enforcer.Policy.Document.parse_schema
    tool_permission_enforcer.Policy.Document.parse_constraint
    tool_permission_enforcer.Policy.Document.parse_scope
    tool_permission_enforcer.Policy.Document.parse_rule
    tool_permission_enforcer.Policy.Document.parse_max_length tool_permission_enforcer.Base.Text.len
    tool_permission_enforcer.Base.string_eq tool_permission_enforcer.Policy.Evaluator.evaluate
    tool_permission_enforcer.Policy.Evaluator.evaluate_manifest
    tool_permission_enforcer.Policy.Evaluator.outside_window
    tool_permission_enforcer.Policy.Evaluator.evaluate_document
    tool_permission_enforcer.Policy.Evaluator.evaluate_operation
    tool_permission_enforcer.Policy.Evaluator.evaluate_rule
    tool_permission_enforcer.Policy.Evaluator.in_scope
    tool_permission_enforcer.Policy.Evaluator.scope_allows
    tool_permission_enforcer.Policy.Manifest.validate_parameters
    tool_permission_enforcer.Policy.Manifest.accepts
    tool_permission_enforcer.Store.Manifests.get_active
    tool_permission_enforcer.Store.Tools.get_by_name native.Mathlib.Decide.ℕ_discrete
    tool_permission_enforcer.Base.nat_eq tool_permission_enforcer.Base.option_eq
    tool_permission_enforcer.Base.Text.leb_text
    tool_permission_enforcer.Audit.Sanitize.sanitize_parameters
    tool_permission_enforcer.Audit.Event.event_hash tool_permission_enforcer.Audit.Event.payload
    tool_permission_enforcer.Audit.Event.pending_event
    tool_permission_enforcer.Audit.Service.has_idempotency_key
    tool_permission_enforcer.Audit.Service.new_event
    tool_permission_enforcer.Audit.Service.record_event tool_permission_enforcer.Store.Events.add
    tool_permission_enforcer.Store.Events.find_by_idempotency_key
    tool_permission_enforcer.Store.Events.all_chain_events
    tool_permission_enforcer.Store.Events.last_chain_event
    tool_permission_enforcer.Store.Events.not_after tool_permission_enforcer.Store.Agents.get
    tool_permission_enforcer.Store.Sessions.get tool_permission_enforcer.Store.Manifests.get
two_calls = refl

serve-IsOnce_example : IsOnce (serve env world ((call, run) ∷ (call, next_run) ∷ []))
serve-IsOnce_example = serve-IsOnce env ((call, run) ∷ (call, next_run) ∷ []) world world-IsOnce

abbrev answer_of_call : ToolCallOutcome
answer_of_call = record {
  request_id = "req_1";
  decision = Verdict.allow;
  reason_code = "ALLOWED";
  message = "Tool call executed";
  result = some (obj (fields parameters));
  upstream_status_code = some 200;
}

call_is_answered : (execute env call run world).0 ≡ ok answer_of_call
unfolding tool_permission_enforcer.ToolCalls.serve tool_permission_enforcer.ToolCalls.execute
    tool_permission_enforcer.ToolCalls.execute_new
    tool_permission_enforcer.ToolCalls.execute_permitted tool_permission_enforcer.ToolCalls.finish
    tool_permission_enforcer.ToolCalls.refuse tool_permission_enforcer.ToolCalls.refuse_duplicate
    tool_permission_enforcer.ToolCalls.audit_input
    tool_permission_enforcer.ToolCalls.audit_input_with
    tool_permission_enforcer.Policy.Document.model_validate
    tool_permission_enforcer.Policy.Document.parse_tool
    tool_permission_enforcer.Policy.Document.parse_operation_rule
    tool_permission_enforcer.Policy.Document.parse_schema
    tool_permission_enforcer.Policy.Document.parse_constraint
    tool_permission_enforcer.Policy.Document.parse_scope
    tool_permission_enforcer.Policy.Document.parse_rule
    tool_permission_enforcer.Policy.Document.parse_max_length tool_permission_enforcer.Base.Text.len
    tool_permission_enforcer.Base.string_eq tool_permission_enforcer.Policy.Evaluator.evaluate
    tool_permission_enforcer.Policy.Evaluator.evaluate_manifest
    tool_permission_enforcer.Policy.Evaluator.outside_window
    tool_permission_enforcer.Policy.Evaluator.evaluate_document
    tool_permission_enforcer.Policy.Evaluator.evaluate_operation
    tool_permission_enforcer.Policy.Evaluator.evaluate_rule
    tool_permission_enforcer.Policy.Evaluator.in_scope
    tool_permission_enforcer.Policy.Evaluator.scope_allows
    tool_permission_enforcer.Policy.Manifest.validate_parameters
    tool_permission_enforcer.Policy.Manifest.accepts
    tool_permission_enforcer.Store.Manifests.get_active
    tool_permission_enforcer.Store.Tools.get_by_name native.Mathlib.Decide.ℕ_discrete
    tool_permission_enforcer.Base.nat_eq tool_permission_enforcer.Base.option_eq
    tool_permission_enforcer.Base.Text.leb_text
    tool_permission_enforcer.Audit.Sanitize.sanitize_parameters
    tool_permission_enforcer.Audit.Event.event_hash tool_permission_enforcer.Audit.Event.payload
    tool_permission_enforcer.Audit.Event.pending_event
    tool_permission_enforcer.Audit.Service.has_idempotency_key
    tool_permission_enforcer.Audit.Service.new_event
    tool_permission_enforcer.Audit.Service.record_event tool_permission_enforcer.Store.Events.add
    tool_permission_enforcer.Store.Events.find_by_idempotency_key
    tool_permission_enforcer.Store.Events.all_chain_events
    tool_permission_enforcer.Store.Events.last_chain_event
    tool_permission_enforcer.Store.Events.not_after tool_permission_enforcer.Store.Agents.get
    tool_permission_enforcer.Store.Sessions.get tool_permission_enforcer.Store.Manifests.get
call_is_answered = refl

execute-IsAudited_example : IsAudited (execute env call run world).1 answer_of_call
execute-IsAudited_example = execute-IsAudited env call run world answer_of_call call_is_answered

execute-raises_example :
    ((o : ToolCallOutcome) × ((execute env call run world).0 ≡ ok o))
    ⊎ ((e : Error) × ((execute env call run world).0 ≡ err e)
        × Raised env call run (answer_for env call run world) e)
execute-raises_example = execute-raises env call run world
