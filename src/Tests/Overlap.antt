-- ===== src/Tests/Overlap.antt =====
-- Calls of one key that overlap, in one process and in two.
use tool_permission_enforcer.Base.{
  ℕ, ◌+◌, ◌≤◌, String, Bool, true, false, Option, none, some, List, [], ◌∷◌, ◌++◌, ◌≡◌, inl, inr,
  refl, arith, string_eq,
}
use tool_permission_enforcer.Base.Json.{obj, fields}
use tool_permission_enforcer.Base.Outcome.{ok, err}
use tool_permission_enforcer.Domain.Errors.{tool_execution_error}
use tool_permission_enforcer.Store.{Db}
use tool_permission_enforcer.Policy.Evaluator.{PolicyDecision}
use tool_permission_enforcer.Policy.Evaluator.Permits.{allows}
use tool_permission_enforcer.Audit.Service.{has_idempotency_key}
use tool_permission_enforcer.ToolCalls.{
  Run, World, Verdict, ToolCallOutcome, decide, execute_new, finish,
}
use tool_permission_enforcer.ToolCalls.Idempotency.{IsOnce, times}
use tool_permission_enforcer.ToolCalls.Concurrent.{
  Process, Waiting, Step, begins, resumes, Reach, here, next, begin, waiting_of,
}
use tool_permission_enforcer.ToolCalls.Concurrent.Once.{Reach-IsOnce}
use tool_permission_enforcer.ToolCalls.Concurrent.Authorized.{IsAuthorized, Reach-IsAuthorized}
use tool_permission_enforcer.ToolCalls.Concurrent.Sequential.{idle}
use tool_permission_enforcer.ToolCalls.Concurrent.Race.{racing, racing_twice}
use tool_permission_enforcer.Seed.Data.{seed_manifest_id}
use tool_permission_enforcer.Tests.Fixture.{
  env, call, run, next_run, world, world-IsOnce, parameters,
}

abbrev permitted : PolicyDecision
permitted = record {
  allowed = true;
  reason_code = "ALLOWED";
  message = "Tool call is permitted";
  manifest_id = some seed_manifest_id;
  policy_checksum = some "1.0";
}

abbrev first_waits : Waiting
first_waits = record { call = call; run = run; policy = permitted }

-- The first call waits for the adapter.
abbrev one_begun : Process
one_begun = record {
  world = (begin env call run world).1;
  waiting = waiting_of call run (begin env call run world).0;
}

-- The second call has come to its end in the meantime.
abbrev two_begun : Process
two_begun = record {
  world = (begin env call next_run one_begun.world).1;
  waiting =
      one_begun.waiting ++ waiting_of call next_run (begin env call next_run one_begun.world).0;
}

second_is_refused : two_begun.waiting ≡ first_waits ∷ []
unfolding tool_permission_enforcer.ToolCalls.Concurrent.begin
    tool_permission_enforcer.ToolCalls.Concurrent.begin_new
    tool_permission_enforcer.ToolCalls.Concurrent.begin_permitted
    tool_permission_enforcer.ToolCalls.serve tool_permission_enforcer.ToolCalls.execute
    tool_permission_enforcer.ToolCalls.execute_new
    tool_permission_enforcer.ToolCalls.execute_permitted tool_permission_enforcer.ToolCalls.finish
    tool_permission_enforcer.ToolCalls.refuse tool_permission_enforcer.ToolCalls.refuse_duplicate
    tool_permission_enforcer.ToolCalls.audit_input
    tool_permission_enforcer.ToolCalls.audit_input_with
    tool_permission_enforcer.Policy.Document.model_validate
    tool_permission_enforcer.Policy.Document.parse_tool
    tool_permission_enforcer.Policy.Document.parse_operation_rule
    tool_permission_enforcer.Policy.Document.parse_schema
    tool_permission_enforcer.Policy.Document.parse_constraint
    tool_permission_enforcer.Policy.Document.parse_scope
    tool_permission_enforcer.Policy.Document.parse_rule
    tool_permission_enforcer.Policy.Document.parse_max_length tool_permission_enforcer.Base.Text.len
    tool_permission_enforcer.Base.string_eq tool_permission_enforcer.Policy.Evaluator.evaluate
    tool_permission_enforcer.Policy.Evaluator.evaluate_manifest
    tool_permission_enforcer.Policy.Evaluator.outside_window
    tool_permission_enforcer.Policy.Evaluator.evaluate_document
    tool_permission_enforcer.Policy.Evaluator.evaluate_operation
    tool_permission_enforcer.Policy.Evaluator.evaluate_rule
    tool_permission_enforcer.Policy.Evaluator.in_scope
    tool_permission_enforcer.Policy.Evaluator.scope_allows
    tool_permission_enforcer.Policy.Manifest.validate_parameters
    tool_permission_enforcer.Policy.Manifest.accepts
    tool_permission_enforcer.Store.Manifests.get_active
    tool_permission_enforcer.Store.Tools.get_by_name native.Mathlib.Decide.ℕ_discrete
    tool_permission_enforcer.Base.nat_eq tool_permission_enforcer.Base.option_eq
    tool_permission_enforcer.Base.Text.leb_text
    tool_permission_enforcer.Audit.Sanitize.sanitize_parameters
    tool_permission_enforcer.Audit.Event.event_hash tool_permission_enforcer.Audit.Event.payload
    tool_permission_enforcer.Audit.Event.pending_event
    tool_permission_enforcer.Audit.Service.has_idempotency_key
    tool_permission_enforcer.Audit.Service.new_event
    tool_permission_enforcer.Audit.Service.record_event tool_permission_enforcer.Store.Events.add
    tool_permission_enforcer.Store.Events.find_by_idempotency_key
    tool_permission_enforcer.Store.Events.all_chain_events
    tool_permission_enforcer.Store.Events.last_chain_event
    tool_permission_enforcer.Store.Events.not_after tool_permission_enforcer.Store.Agents.get
    tool_permission_enforcer.Store.Sessions.get tool_permission_enforcer.Store.Manifests.get
second_is_refused = refl

-- The first call is resumed, after a timeout.
abbrev both_ended : Process
both_ended = record {
  world =
      (finish env call run permitted
        (err (tool_execution_error "UPSTREAM_TOOL_TIMEOUT" "The protected tool timed out" none))
        two_begun.world).1;
  waiting = [];
}

two_begin : Reach env (idle world) two_begun
two_begin = next (next here (begins call run)) (begins call next_run)

overlap : Reach env (idle world) both_ended
overlap = next two_begin (resumes [] [] first_waits _ second_is_refused)

Reach-IsOnce_example : IsOnce both_ended.world
Reach-IsOnce_example = Reach-IsOnce world-IsOnce overlap

Reach-IsAuthorized_example : IsAuthorized both_ended.world
Reach-IsAuthorized_example = Reach-IsAuthorized tt overlap

abbrev executed_outcome : String → ToolCallOutcome
executed_outcome request_id = record {
  request_id = request_id;
  decision = Verdict.allow;
  reason_code = "ALLOWED";
  message = "Tool call executed";
  result = some (obj (fields parameters));
  upstream_status_code = some 200;
}

racing_runs :
    (has_idempotency_key call.agent_id call.idempotency_key world.db ≡ false)
    × (allows (decide env call run world.db) ≡ true)
    × (allows (decide env call next_run world.db) ≡ true)
    × ((execute_new env call run world).0 ≡ ok (executed_outcome "req_1"))
    × ((execute_new env call next_run (execute_new env call run world).1).0
        ≡ ok (executed_outcome "req_2"))
unfolding tool_permission_enforcer.ToolCalls.Concurrent.begin
    tool_permission_enforcer.ToolCalls.Concurrent.begin_new
    tool_permission_enforcer.ToolCalls.Concurrent.begin_permitted
    tool_permission_enforcer.ToolCalls.serve tool_permission_enforcer.ToolCalls.execute
    tool_permission_enforcer.ToolCalls.execute_new
    tool_permission_enforcer.ToolCalls.execute_permitted tool_permission_enforcer.ToolCalls.finish
    tool_permission_enforcer.ToolCalls.refuse tool_permission_enforcer.ToolCalls.refuse_duplicate
    tool_permission_enforcer.ToolCalls.audit_input
    tool_permission_enforcer.ToolCalls.audit_input_with
    tool_permission_enforcer.Policy.Document.model_validate
    tool_permission_enforcer.Policy.Document.parse_tool
    tool_permission_enforcer.Policy.Document.parse_operation_rule
    tool_permission_enforcer.Policy.Document.parse_schema
    tool_permission_enforcer.Policy.Document.parse_constraint
    tool_permission_enforcer.Policy.Document.parse_scope
    tool_permission_enforcer.Policy.Document.parse_rule
    tool_permission_enforcer.Policy.Document.parse_max_length tool_permission_enforcer.Base.Text.len
    tool_permission_enforcer.Base.string_eq tool_permission_enforcer.Policy.Evaluator.evaluate
    tool_permission_enforcer.Policy.Evaluator.evaluate_manifest
    tool_permission_enforcer.Policy.Evaluator.outside_window
    tool_permission_enforcer.Policy.Evaluator.evaluate_document
    tool_permission_enforcer.Policy.Evaluator.evaluate_operation
    tool_permission_enforcer.Policy.Evaluator.evaluate_rule
    tool_permission_enforcer.Policy.Evaluator.in_scope
    tool_permission_enforcer.Policy.Evaluator.scope_allows
    tool_permission_enforcer.Policy.Manifest.validate_parameters
    tool_permission_enforcer.Policy.Manifest.accepts
    tool_permission_enforcer.Store.Manifests.get_active
    tool_permission_enforcer.Store.Tools.get_by_name native.Mathlib.Decide.ℕ_discrete
    tool_permission_enforcer.Base.nat_eq tool_permission_enforcer.Base.option_eq
    tool_permission_enforcer.Base.Text.leb_text
    tool_permission_enforcer.Audit.Sanitize.sanitize_parameters
    tool_permission_enforcer.Audit.Event.event_hash tool_permission_enforcer.Audit.Event.payload
    tool_permission_enforcer.Audit.Event.pending_event
    tool_permission_enforcer.Audit.Service.has_idempotency_key
    tool_permission_enforcer.Audit.Service.new_event
    tool_permission_enforcer.Audit.Service.record_event tool_permission_enforcer.Store.Events.add
    tool_permission_enforcer.Store.Events.find_by_idempotency_key
    tool_permission_enforcer.Store.Events.all_chain_events
    tool_permission_enforcer.Store.Events.last_chain_event
    tool_permission_enforcer.Store.Events.not_after tool_permission_enforcer.Store.Agents.get
    tool_permission_enforcer.Store.Sessions.get tool_permission_enforcer.Store.Manifests.get
racing_runs = (refl, refl, refl, refl, refl)

racing_twice_example :
    times call.agent_id call.idempotency_key (racing env call run next_run world).forwarded
    ≡ times call.agent_id call.idempotency_key world.forwarded + 2
racing_twice_example =
    racing_twice env call run next_run world (executed_outcome "req_1") (executed_outcome "req_2")
      racing_runs.0 racing_runs.1 racing_runs.2 racing_runs.3 racing_runs.4
