-- ===== src/ToolCalls/Answers.antt =====
-- Every answer of the service is the last record of the audit trail.
use tool_permission_enforcer.Base.{
  ℕ, List, [], ◌∷◌, ◌++◌, ◌≡◌, refl, ◌∙◌, inl, inr, arith, ap, Bool-cases,
}
use tool_permission_enforcer.Base.Outcome.{Result, ok, err}
use tool_permission_enforcer.Domain.Enums.{AuditExecutionStatus, executed, not_forwarded}
use tool_permission_enforcer.Domain.Errors.{Error, tool_execution_error}
use tool_permission_enforcer.Domain.Models.{ToolCallAuditEvent}
use tool_permission_enforcer.Policy.Evaluator.{PolicyDecision}
use tool_permission_enforcer.Policy.Evaluator.Total.{evaluate_total}
use tool_permission_enforcer.Audit.Event.{AuditEventInput, pending_event}
use tool_permission_enforcer.Audit.Service.{Stamp, has_idempotency_key, new_event}
use tool_permission_enforcer.Audit.Service.Append.{record_event-atomic}
use tool_permission_enforcer.Tools.Adapter.{ToolExecutionResult}
use tool_permission_enforcer.ToolCalls.{
  Env, Call, Run, World, ToolCallOutcome, allow, block, error, audit_decision, outcome,
  executed_outcome, failed_outcome, duplicate_outcome, answer, finish, audit_input,
  audit_input_with, failure_status, refuse, refuse_duplicate, execute_permitted, execute_new,
  execute, policy_request,
}
use tool_permission_enforcer.ToolCalls.Forwarding.{authorization, answer_for, authorized_world}

-- The execution status that goes with an answer.
abbrev pub expected_status : ToolCallOutcome → AuditExecutionStatus
expected_status o = elim o.decision [
  | allow ↦ executed
  | block ↦ not_forwarded
  | error ↦ failure_status o.reason_code
]

-- The last event of the world records the answer.
pub record IsAudited (w : World) (o : ToolCallOutcome) : Type 0 where
  pub before : List ToolCallAuditEvent
  pub event : ToolCallAuditEvent
  pub stored : w.db.events ≡ before ++ (event ∷ [])
  pub request : event.request_id ≡ o.request_id
  pub reason : event.reason_code ≡ o.reason_code
  pub decision : event.decision ≡ audit_decision o.decision
  pub status : event.execution_status ≡ expected_status o

abbrev Fits : AuditEventInput → ToolCallOutcome → Type 0
Fits d o =
    (d.request_id ≡ o.request_id)
    × (d.reason_code ≡ o.reason_code)
    × (d.decision ≡ audit_decision o.decision)
    × (d.execution_status ≡ expected_status o)

module _ (env : Env) (c : Call) (run : Run) where
  answer-IsAudited :
      (d : AuditEventInput) (stamp : Stamp) (o o' : ToolCallOutcome) (w : World)
      → Fits d o
      → (answer env d stamp o w).0 ≡ ok o'
      → IsAudited (answer env d stamp o w).1 o'
  unfolding new_event pending_event
  answer-IsAudited d stamp o o' w fits h =
      elim (record_event-atomic env.isoformat env.digest d stamp w.db) [
        | inr refused ↦ absurd (ground arith)
        | inl stored ↦
            let same : o ≡ o' = ground arith in
            record {
              before = w.db.events;
              event = new_event env.isoformat env.digest d stamp w.db;
              stored = ground arith;
              request = fits.0 ∙ ap (λ x. x.request_id) same;
              reason = fits.1 ∙ ap (λ x. x.reason_code) same;
              decision = fits.2 ∙ ap (λ x. audit_decision x.decision) same;
              status = fits.3 ∙ ap expected_status same;
            }
      ]

  with_policy-IsAudited :
      (policy : PolicyDecision) (sequence latency : ℕ) (status : AuditExecutionStatus)
      (stamp : Stamp) (o o' : ToolCallOutcome) (w : World)
      → status ≡ expected_status o
      → (answer env (audit_input_with policy c run o sequence status latency) stamp o w).0 ≡ ok o'
      → IsAudited
          (answer env (audit_input_with policy c run o sequence status latency) stamp o w).1
          o'
  unfolding audit_input_with
  with_policy-IsAudited policy sequence latency status stamp o o' w e h =
      answer-IsAudited (audit_input_with policy c run o sequence status latency) stamp o o' w
        (refl, refl, refl, e) h

  finish-IsAudited :
      (policy : PolicyDecision) (answered : Result Error ToolExecutionResult) (w : World)
      (o : ToolCallOutcome)
      → (finish env c run policy answered w).0 ≡ ok o
      → IsAudited (finish env c run policy answered w).1 o
  unfolding finish
  finish-IsAudited policy (ok x) w o h =
      with_policy-IsAudited policy 1 run.second_latency_ms executed run.second
        (executed_outcome run x) o w refl h
  finish-IsAudited policy (err (tool_execution_error code message up)) w o h =
      with_policy-IsAudited policy 1 run.second_latency_ms (failure_status code) run.second
        (failed_outcome run code message up) o w refl h
  finish-IsAudited policy (err _) w o h = absurd (ground arith)

  refuse-IsAudited :
      (policy : PolicyDecision) (w : World) (o : ToolCallOutcome)
      → (refuse env c run policy w).0 ≡ ok o
      → IsAudited (refuse env c run policy w).1 o
  unfolding refuse
  refuse-IsAudited policy w o h =
      with_policy-IsAudited policy 0 run.first_latency_ms not_forwarded run.first
        (outcome run block policy.reason_code policy.message) o w refl h

  refuse_duplicate-IsAudited :
      (w : World) (o : ToolCallOutcome)
      → (refuse_duplicate env c run w).0 ≡ ok o
      → IsAudited (refuse_duplicate env c run w).1 o
  unfolding refuse_duplicate audit_input
  refuse_duplicate-IsAudited w o h =
      answer-IsAudited (audit_input c (duplicate_outcome run) 0 not_forwarded run.first_latency_ms)
        run.first (duplicate_outcome run) o w (refl, refl, refl, refl) h

  stored_authorization :
      (policy : PolicyDecision) (w : World) (o : ToolCallOutcome)
      → (execute_permitted env c run policy w).0 ≡ ok o
      → execute_permitted env c run policy w
        ≡ finish env c run policy (answer_for env c run w) (authorized_world env c run policy w)
  unfolding execute_permitted
  stored_authorization policy w o h =
      elim (record_event-atomic env.isoformat env.digest (authorization env c run policy) run.first
        w.db) [ inr refused ↦ absurd (ground arith) | inl stored ↦ ground arith ]

  execute_permitted-IsAudited :
      (policy : PolicyDecision) (w : World) (o : ToolCallOutcome)
      → (execute_permitted env c run policy w).0 ≡ ok o
      → IsAudited (execute_permitted env c run policy w).1 o
  execute_permitted-IsAudited policy w o h =
      let same = stored_authorization policy w o h in
      rw same (
        finish-IsAudited policy (answer_for env c run w) (authorized_world env c run policy w) o
          (rw same at h))

  -- An answer is given only after it was recorded: when the service returns an outcome, the last
  -- event has its request, its reason code and its decision, and says whether the call was executed,
  -- was not forwarded, failed or timed out.
  pub execute-IsAudited :
      (w : World) (o : ToolCallOutcome)
      → (execute env c run w).0 ≡ ok o
      → IsAudited (execute env c run w).1 o
  unfolding execute execute_new
  execute-IsAudited w o h =
      let (policy, decided, _) =
        evaluate_total env.coercions env.digest (policy_request c) run.evaluated_at w.db in
      elim (Bool-cases (has_idempotency_key c.agent_id c.idempotency_key w.db)) [
        | inl used ↦ rw used (refuse_duplicate-IsAudited w o (rw used at h))
        | inr fresh ↦ elim (Bool-cases policy.allowed) [
          | inl allowed ↦
              rw (fresh, decided, allowed)
                (execute_permitted-IsAudited policy w o (rw (fresh, decided, allowed) at h))
          | inr denied ↦
              rw (fresh, decided, denied)
                (refuse-IsAudited policy w o (rw (fresh, decided, denied) at h))
        ]
      ]
