-- ===== src/ToolCalls/Raises.antt =====
-- When `execute` raises instead of answering.
use tool_permission_enforcer.Base.{Bool, true, false, ◌≡◌, ◌⊎◌, inl, inr, arith, Bool-cases}
use tool_permission_enforcer.Base.Outcome.{Result, ok, err, Result-cases}
use tool_permission_enforcer.Domain.Errors.{Error, tool_execution_error, integrity_error}
use tool_permission_enforcer.Policy.Evaluator.{PolicyDecision}
use tool_permission_enforcer.Policy.Evaluator.Total.{evaluate_total}
use tool_permission_enforcer.Audit.Event.{AuditEventInput}
use tool_permission_enforcer.Audit.Service.{Stamp, has_idempotency_key}
use tool_permission_enforcer.Audit.Service.Append.{record_event-atomic}
use tool_permission_enforcer.Tools.Adapter.{ToolExecutionResult}
use tool_permission_enforcer.ToolCalls.{
  Env, Call, Run, World, ToolCallOutcome, answer, finish, execute_permitted, refuse,
  refuse_duplicate, execute_new, execute, policy_request,
}
use tool_permission_enforcer.ToolCalls.Forwarding.{answer_for, authorized_world, authorization}

-- `isinstance(error, ToolExecutionError)`
abbrev pub is_tool_error : Error → Bool
is_tool_error (tool_execution_error code message upstream) = true
is_tool_error _ = false

module _ (env : Env) (c : Call) (run : Run) where
  answer-raises :
      (d : AuditEventInput) (stamp : Stamp) (o : ToolCallOutcome) (w : World) (e : Error)
      → (answer env d stamp o w).0 ≡ err e
      → e ≡ integrity_error
  answer-raises d stamp o w e h = elim (record_event-atomic env.isoformat env.digest d stamp w.db) [
    | inl stored ↦ absurd (ground arith)
    | inr refused ↦ ground arith
  ]

  refuse_duplicate-raises :
      (w : World) (e : Error) → (refuse_duplicate env c run w).0 ≡ err e → e ≡ integrity_error
  unfolding refuse_duplicate
  refuse_duplicate-raises w e h = answer-raises _ _ _ w e h

  refuse-raises :
      (policy : PolicyDecision) (w : World) (e : Error)
      → (refuse env c run policy w).0 ≡ err e
      → e ≡ integrity_error
  unfolding refuse
  refuse-raises policy w e h = answer-raises _ _ _ w e h

  -- What `finish` may raise: the refusal of the database, or an error of the adapter that is no
  -- `ToolExecutionError`.
  abbrev pub Raised : Result Error ToolExecutionResult → Error → Type 0
  Raised reply e = (e ≡ integrity_error) ⊎ ((reply ≡ err e) × (is_tool_error e ≡ false))

  finish-raises :
      (policy : PolicyDecision) (reply : Result Error ToolExecutionResult) (w : World) (e : Error)
      → (finish env c run policy reply w).0 ≡ err e
      → Raised reply e
  unfolding finish
  finish-raises policy (ok execution) w e h = inl (answer-raises _ _ _ w e h)
  finish-raises policy (err (tool_execution_error code message upstream)) w e h =
      inl (answer-raises _ _ _ w e h)
  finish-raises policy (err _) w e h = inr (ground arith, ground arith)

  execute_permitted-raises :
      (policy : PolicyDecision) (w : World) (e : Error)
      → (execute_permitted env c run policy w).0 ≡ err e
      → Raised (answer_for env c run w) e
  unfolding execute_permitted
  execute_permitted-raises policy w e h =
      elim (record_event-atomic env.isoformat env.digest (authorization env c run policy) run.first
        w.db) [
          | inr refused ↦ inl (ground arith)
          | inl stored ↦
              finish-raises policy (answer_for env c run w) (authorized_world env c run policy w) e
                (ground arith)
        ]

  execute-Raised :
      (w : World) (e : Error) → (execute env c run w).0 ≡ err e → Raised (answer_for env c run w) e
  unfolding execute execute_new
  execute-Raised w e h =
      let (policy, decided, _) =
        evaluate_total env.coercions env.digest (policy_request c) run.evaluated_at w.db in
      elim (Bool-cases (has_idempotency_key c.agent_id c.idempotency_key w.db)) [
        | inl used ↦ inl (refuse_duplicate-raises w e (rw used at h))
        | inr fresh ↦ elim (Bool-cases policy.allowed) [
          | inl allowed ↦ execute_permitted-raises policy w e (rw (fresh, decided, allowed) at h)
          | inr denied ↦ inl (refuse-raises policy w e (rw (fresh, decided, denied) at h))
        ]
      ]

  -- The service answers every call, except that it raises the database's refusal of an audit event,
  -- or passes on an error of the adapter that is no `ToolExecutionError`.
  pub execute-raises :
      (w : World)
      → ((o : ToolCallOutcome) × ((execute env c run w).0 ≡ ok o))
        ⊎ ((e : Error) × ((execute env c run w).0 ≡ err e) × Raised (answer_for env c run w) e)
  execute-raises w = elim (Result-cases (execute env c run w).0) [
    | inl answered ↦ inl answered
    | inr (e, failed) ↦ inr (e, failed, execute-Raised w e failed)
  ]
