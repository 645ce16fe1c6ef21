-- ===== src/ToolCalls/Concurrent/Race.antt =====
-- Two processes on one database: each looks the key up before the other has recorded its call.
use tool_permission_enforcer.Base.{
  ◌+◌, true, false, [], ◌∷◌, ◌++◌, ◌≡◌, refl, inl, inr, arith, string_eq, if◌then◌else◌,
}
use tool_permission_enforcer.Base.Outcome.{Result, ok, err}
use tool_permission_enforcer.Domain.Errors.{Error, tool_execution_error}
use tool_permission_enforcer.Tools.Adapter.{ToolExecutionResult}
use tool_permission_enforcer.Store.{Db}
use tool_permission_enforcer.Store.Manifests
use tool_permission_enforcer.Store.Tools
use tool_permission_enforcer.Policy.Evaluator.{PolicyDecision, evaluate}
use tool_permission_enforcer.Policy.Evaluator.Permits.{allows}
use tool_permission_enforcer.Policy.Evaluator.Total.{evaluate_total}
use tool_permission_enforcer.Audit.Event.{AuditEventInput}
use tool_permission_enforcer.Audit.Service.{Stamp, has_idempotency_key}
use tool_permission_enforcer.Audit.Service.Append.{record_event-atomic}
use tool_permission_enforcer.ToolCalls.{
  Env, Call, Run, World, ToolCallOutcome, decide, answer, execute_permitted, execute_new, finish,
  refuse_duplicate, policy_request,
}
use tool_permission_enforcer.ToolCalls.Forwarding.{
  authorization, authorized_world, answer_for, finish-forwarded,
}
use tool_permission_enforcer.ToolCalls.Idempotency.{times, times-append}

-- The world after both calls, if both lookups of the key come first.
unfoldable pub racing : Env → Call → Run → Run → World → World
racing env c first second w =
    if has_idempotency_key c.agent_id c.idempotency_key w.db
    then (refuse_duplicate env c second (refuse_duplicate env c first w).1).1
    else (execute_new env c second (execute_new env c first w).1).1

module _ (env : Env) (c : Call) where
  -- The tables that the policy reads.
  abbrev Same : Db → Db → Type 0
  Same db db' = (db'.manifests ≡ db.manifests) × (db'.tools ≡ db.tools)

  -- The policy does not look at the events.
  decide-Same : (run : Run) (db db' : Db) → Same db db' → decide env c run db' ≡ decide env c run db
  unfolding evaluate Manifests.get_active Tools.get_by_name
  decide-Same run db db' (manifests, tools) = rw (manifests, tools)

  answer-Same :
      (d : AuditEventInput) (stamp : Stamp) (o : ToolCallOutcome) (w : World)
      → Same w.db (answer env d stamp o w).1.db
  answer-Same d stamp o w = elim (record_event-atomic env.isoformat env.digest d stamp w.db) [
    | inl stored ↦ (ground arith, ground arith)
    | inr refused ↦ (ground arith, ground arith)
  ]

  finish-Same :
      (run : Run) (policy : PolicyDecision) (reply : Result Error ToolExecutionResult) (w : World)
      → Same w.db (finish env c run policy reply w).1.db
  unfolding finish
  finish-Same run policy (ok x) w = answer-Same _ run.second _ w
  finish-Same run policy (err (tool_execution_error code message up)) w =
      answer-Same _ run.second _ w
  finish-Same run policy (err _) w = (refl, refl)

  execute_permitted-log :
      (run : Run) (policy : PolicyDecision) (w : World) (o : ToolCallOutcome)
      → (execute_permitted env c run policy w).0 ≡ ok o
      → (execute_permitted env c run policy w).1.forwarded ≡ w.forwarded ++ (c ∷ [])
  unfolding execute_permitted
  execute_permitted-log run policy w o h =
      elim (record_event-atomic env.isoformat env.digest (authorization env c run policy) run.first
        w.db) [
          | inr refused ↦ absurd (ground arith)
          | inl stored ↦ ground (
            arith,
            finish-forwarded env c run policy (answer_for env c run w)
                (authorized_world env c run policy w),
          )
        ]

  execute_permitted-Same :
      (run : Run) (policy : PolicyDecision) (w : World)
      → Same w.db (execute_permitted env c run policy w).1.db
  unfolding execute_permitted
  execute_permitted-Same run policy w =
      let (manifests, tools) =
        finish-Same run policy (answer_for env c run w) (authorized_world env c run policy w) in
      elim (record_event-atomic env.isoformat env.digest (authorization env c run policy) run.first
        w.db) [
          | inr refused ↦ (ground arith, ground arith)
          | inl stored ↦ (ground (arith, manifests), ground (arith, tools))
        ]

  -- A permitted call that is answered was forwarded.
  execute_new-log :
      (run : Run) (w : World) (o : ToolCallOutcome)
      → allows (decide env c run w.db) ≡ true
      → (execute_new env c run w).0 ≡ ok o
      → ((execute_new env c run w).1.forwarded ≡ w.forwarded ++ (c ∷ []))
        × Same w.db (execute_new env c run w).1.db
  unfolding execute_new
  execute_new-log run w o allowed h =
      let (policy, decided, _) =
        evaluate_total env.coercions env.digest (policy_request c) run.evaluated_at w.db in
      let permitted : policy.allowed ≡ true = ground (arith, decided) in
      rw (decided, permitted)
        (
          execute_permitted-log run policy w o (rw (decided, permitted) at h),
          execute_permitted-Same run policy w,
        )

  -- If the key is new, the policy permits the call at both times, and both processes answer, then the
  -- adapter is invoked twice for the key.
  pub racing_twice :
      (first second : Run) (w : World) (o o' : ToolCallOutcome)
      → has_idempotency_key c.agent_id c.idempotency_key w.db ≡ false
      → allows (decide env c first w.db) ≡ true
      → allows (decide env c second w.db) ≡ true
      → (execute_new env c first w).0 ≡ ok o
      → (execute_new env c second (execute_new env c first w).1).0 ≡ ok o'
      → times c.agent_id c.idempotency_key (racing env c first second w).forwarded
        ≡ times c.agent_id c.idempotency_key w.forwarded + 2
  unfolding racing
  racing_twice first second w o o' fresh allowed allowed' answered answered' =
      let w' = (execute_new env c first w).1 in
      let (log, same) = execute_new-log first w o allowed answered in
      let (log', _) =
        execute_new-log second w' o' (rw (decide-Same second w.db w'.db same) allowed') answered' in
      rw (fresh, log', log, times-append, times-append) (ground arith)
