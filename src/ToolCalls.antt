-- ===== src/ToolCalls.antt =====
-- `ToolCallService` of services/permission_proxy/tool_calls.py. A call runs from its start to its
-- end with no other in between. Identifiers, instants and latencies are the input `Run`; the
-- remaining parameters are in `Env`.
pub mod Forwarding
pub mod Idempotency
pub mod Answers
pub mod Raises
pub mod Concurrent
pub mod Tables
pub mod Customers
use Prim.Native.String.{◌++◌ as ◌<>◌}
use tool_permission_enforcer.Base.{
  ℕ, String, Option, none, some, List, [], ◌∷◌, ◌++◌, ◌==◌, map, string_eq, if◌then◌else◌,
}
use tool_permission_enforcer.Base.Dict.{Dict}
use tool_permission_enforcer.Base.Json.{Json}
use tool_permission_enforcer.Base.Outcome.{
  Result, ok, err, Exec, ◌>>=◌, ◌>>◌, pure, raise, lift, gets,
}
use tool_permission_enforcer.Domain.Enums.{
  AuditDecision, AuditExecutionStatus, not_forwarded, authorized, executed, tool_failed, timed_out,
}
use tool_permission_enforcer.Domain.Errors.{Error, tool_execution_error}
use tool_permission_enforcer.Domain.Models.{ToolCallAuditEvent, CrmCustomer}
use tool_permission_enforcer.Store.{Db, Action}
use tool_permission_enforcer.Security.Claims.{TrustedSessionClaims}
use tool_permission_enforcer.Policy.Document.{Coercions}
use tool_permission_enforcer.Policy.Evaluator.{PolicyDecision, Request, evaluate}
use tool_permission_enforcer.Audit.Event.{AuditEventInput}
use tool_permission_enforcer.Audit.Service.{Stamp, has_idempotency_key, record_event}
use tool_permission_enforcer.Tools.Adapter.{ToolRequest, ToolExecutionResult, ToolAdapter}

-- What the service is built from and is not under services/. The tool that the adapter calls runs
-- with the same database: `customers_after` is what a call of it leaves of `crm_customers`, after the
-- calls before. The other tables are the proxy's own.
pub record Env : Type 0 where
  pub coercions : Coercions
  pub digest : Json → String
  pub isoformat : ℕ → String
  pub adapter : ToolAdapter
  pub customers_after : List ToolRequest → ToolRequest → List CrmCustomer → List CrmCustomer

pub record Call : Type 0 where
  pub agent_id : String
  pub trusted_session : TrustedSessionClaims
  pub idempotency_key : String
  pub tool : String
  pub operation : String
  pub parameters : Dict Json
  pub trace_id : Option String

-- What `uuid4` and the clocks give to one call.
pub record Run : Type 0 where
  pub request_hex : String
  pub evaluated_at : ℕ
  pub first : Stamp
  pub second : Stamp
  pub decision_latency_ms : ℕ
  pub first_latency_ms : ℕ
  pub second_latency_ms : ℕ

pub data Verdict : Type 0 where
  allow block error : Verdict

pub record ToolCallOutcome : Type 0 where
  pub request_id : String
  pub decision : Verdict
  pub reason_code : String
  pub message : String
  pub result : Option Json
  pub upstream_status_code : Option ℕ

-- The database, and the calls for which the adapter was invoked, oldest first.
pub record World : Type 0 where
  pub db : Db
  pub forwarded : List Call

abbrev pub in_db : {A : Type 0} → Action A → Exec World Error A
in_db m w = let (r, db) = m w.db in (r, record w { db = db })

abbrev pub audit_decision : Verdict → AuditDecision
audit_decision allow = AuditDecision.allow
audit_decision block = AuditDecision.block
audit_decision error = AuditDecision.error

abbrev pub tool_request : Call → ToolRequest
tool_request c = record { tool = c.tool; operation = c.operation; parameters = c.parameters }

abbrev pub policy_request : Call → Request
policy_request c = record {
  agent_id = c.agent_id;
  session = c.trusted_session;
  tool_name = c.tool;
  operation = c.operation;
  parameters = c.parameters;
}

abbrev pub request_id : Run → String
request_id run = "req_" <> run.request_hex

-- `ToolCallOutcome` without a result
abbrev outcome : Run → Verdict → String → String → ToolCallOutcome
outcome run verdict code message = record {
  request_id = request_id run;
  decision = verdict;
  reason_code = code;
  message = message;
  result = none;
  upstream_status_code = none;
}

abbrev executed_outcome : Run → ToolExecutionResult → ToolCallOutcome
executed_outcome run execution = record {
  request_id = request_id run;
  decision = allow;
  reason_code = "ALLOWED";
  message = "Tool call executed";
  result = execution.result;
  upstream_status_code = some execution.upstream_status_code;
}

abbrev failed_outcome : Run → String → String → Option ℕ → ToolCallOutcome
failed_outcome run code message upstream = record {
  request_id = request_id run;
  decision = error;
  reason_code = code;
  message = message;
  result = none;
  upstream_status_code = upstream;
}

abbrev duplicate_outcome : Run → ToolCallOutcome
duplicate_outcome run =
    outcome run block "DUPLICATE_REQUEST" "This idempotency key has already been used"

-- The audit input of `_record`, with no policy, as for a duplicate.
unfoldable pub audit_input : Call → ToolCallOutcome → ℕ → AuditExecutionStatus → ℕ → AuditEventInput
audit_input c o sequence status latency = record {
  request_id = o.request_id;
  idempotency_key = c.idempotency_key;
  sequence = sequence;
  agent_id = c.agent_id;
  session_id = some c.trusted_session.session_id;
  user_id = some c.trusted_session.user_id;
  tool = c.tool;
  operation = c.operation;
  parameters = c.parameters;
  decision = audit_decision o.decision;
  reason_code = o.reason_code;
  execution_status = status;
  manifest_id = none;
  policy_checksum = none;
  upstream_status_code = o.upstream_status_code;
  decision_latency_ms = none;
  total_latency_ms = some latency;
  trace_id = c.trace_id;
}

-- The same with the policy that was evaluated.
unfoldable pub audit_input_with :
    PolicyDecision → Call → Run → ToolCallOutcome → ℕ → AuditExecutionStatus → ℕ → AuditEventInput
unfolding audit_input
audit_input_with policy c run o sequence status latency =
    record (audit_input c o sequence status latency) {
      manifest_id = policy.manifest_id;
      policy_checksum = policy.policy_checksum;
      decision_latency_ms = some run.decision_latency_ms;
    }

abbrev pub failure_status : String → AuditExecutionStatus
failure_status code = if code == "UPSTREAM_TOOL_TIMEOUT" then timed_out else tool_failed

module _ (env : Env) where
  -- `_record`
  abbrev pub record_call : AuditEventInput → Stamp → Exec World Error ToolCallAuditEvent
  record_call d stamp = in_db (record_event env.isoformat env.digest d stamp)

  -- `self._record(outcome=…); return outcome`
  abbrev pub answer : AuditEventInput → Stamp → ToolCallOutcome → Exec World Error ToolCallOutcome
  answer d stamp o = do record_call d stamp; pure o

  -- The customers that the called tool leaves.
  abbrev pub tool_writes : Call → World → List CrmCustomer
  tool_writes c w =
      env.customers_after (map tool_request w.forwarded) (tool_request c) w.db.customers

  -- `await self.adapter.execute(…)`; a `ToolExecutionError` is caught by the caller.
  abbrev pub forward : Call → Exec World Error (Result Error ToolExecutionResult)
  forward c w = (
    ok (env.adapter (map tool_request w.forwarded) (tool_request c)),
    record {
      db = record (w.db) { customers = tool_writes c w };
      forwarded = w.forwarded ++ (c ∷ []);
    },
  )

  -- The second record of a call, and the answer.
  abbrev pub conclude :
      Call
      → Run
      → PolicyDecision
      → AuditExecutionStatus
      → ToolCallOutcome
      → Exec World Error ToolCallOutcome
  conclude c run policy status o =
      answer (audit_input_with policy c run o 1 status run.second_latency_ms) run.second o

  -- The part after the adapter's answer.
  unfoldable pub finish :
      Call
      → Run
      → PolicyDecision
      → Result Error ToolExecutionResult
      → Exec World Error ToolCallOutcome
  finish c run policy (ok execution) =
      conclude c run policy executed (executed_outcome run execution)
  finish c run policy (err (tool_execution_error code message upstream)) =
      conclude c run policy (failure_status code) (failed_outcome run code message upstream)
  finish c run policy (err e) = raise e

  unfoldable pub execute_permitted : Call → Run → PolicyDecision → Exec World Error ToolCallOutcome
  execute_permitted c run policy = do
    let o : ToolCallOutcome = outcome run allow "ALLOWED" "Tool call is permitted"
    record_call (audit_input_with policy c run o 0 authorized run.first_latency_ms) run.first
    execution ← forward c
    finish c run policy execution

  unfoldable pub refuse : Call → Run → PolicyDecision → Exec World Error ToolCallOutcome
  refuse c run policy =
      let o : ToolCallOutcome = outcome run block policy.reason_code policy.message in
      answer (audit_input_with policy c run o 0 not_forwarded run.first_latency_ms) run.first o

  unfoldable pub refuse_duplicate : Call → Run → Exec World Error ToolCallOutcome
  refuse_duplicate c run =
      let o : ToolCallOutcome = duplicate_outcome run in
      answer (audit_input c o 0 not_forwarded run.first_latency_ms) run.first o

  abbrev pub decide : Call → Run → Db → Result Error PolicyDecision
  decide c run db = evaluate env.coercions env.digest (policy_request c) run.evaluated_at db

  unfoldable pub execute_new : Call → Run → Exec World Error ToolCallOutcome
  execute_new c run = do
    decision ← gets (λ w. decide c run w.db)
    policy ← lift decision
    if policy.allowed then execute_permitted c run policy else refuse c run policy

  unfoldable pub execute : Call → Run → Exec World Error ToolCallOutcome
  execute c run = do
    used ← gets (λ w. has_idempotency_key c.agent_id c.idempotency_key w.db)
    if used then refuse_duplicate c run else execute_new c run

  -- The world after a series of calls, each with what the clocks give it. An error ends only its
  -- own call.
  unfoldable pub serve : World → List (Call × Run) → World
  serve w [] = w
  serve w ((c, run) ∷ rest) = serve (execute c run w).1 rest
