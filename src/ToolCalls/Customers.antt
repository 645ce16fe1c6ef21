-- ===== src/ToolCalls/Customers.antt =====
-- A call leaves the customers to the tool that it calls.
use tool_permission_enforcer.Base.{
  [], ◌∷◌, ◌++◌, ◌≡◌, ◌⊎◌, refl, inl, inr, arith, string_eq, Bool-cases,
}
use tool_permission_enforcer.Base.Outcome.{Result, ok, err}
use tool_permission_enforcer.Domain.Errors.{Error, tool_execution_error}
use tool_permission_enforcer.Tools.Adapter.{ToolExecutionResult}
use tool_permission_enforcer.Policy.Evaluator.{PolicyDecision}
use tool_permission_enforcer.Policy.Evaluator.Total.{evaluate_total}
use tool_permission_enforcer.Audit.Event.{AuditEventInput}
use tool_permission_enforcer.Audit.Service.{Stamp, has_idempotency_key}
use tool_permission_enforcer.Audit.Service.Append.{record_event-atomic}
use tool_permission_enforcer.ToolCalls.{
  Env, Call, Run, World, ToolCallOutcome, answer, finish, execute_permitted, refuse,
  refuse_duplicate, execute_new, execute, policy_request, tool_writes,
}
use tool_permission_enforcer.ToolCalls.Forwarding.{
  authorization, authorized_world, answer_for, finish-forwarded,
}

module _ (env : Env) where
  answer-customers :
      (d : AuditEventInput) (stamp : Stamp) (o : ToolCallOutcome) (w : World)
      → (answer env d stamp o w).1.db.customers ≡ w.db.customers
  answer-customers d stamp o w = elim (record_event-atomic env.isoformat env.digest d stamp w.db) [
    | inl stored ↦ ground arith
    | inr refused ↦ ground arith
  ]

  module _ (c : Call) (run : Run) where
    -- From one world to another the customers are the same, or they are what the called tool leaves
    -- and the call was forwarded.
    abbrev pub ByTool : World → World → Type 0
    ByTool w w' =
        (w'.db.customers ≡ w.db.customers)
        ⊎ ((w'.forwarded ≡ w.forwarded ++ (c ∷ [])) × (w'.db.customers ≡ tool_writes env c w))

    finish-customers :
        (policy : PolicyDecision) (reply : Result Error ToolExecutionResult) (w : World)
        → (finish env c run policy reply w).1.db.customers ≡ w.db.customers
    unfolding finish
    finish-customers policy (ok x) w = answer-customers _ run.second _ w
    finish-customers policy (err (tool_execution_error code message up)) w =
        answer-customers _ run.second _ w
    finish-customers policy (err _) w = refl

    execute_permitted-ByTool :
        (policy : PolicyDecision) (w : World) → ByTool w (execute_permitted env c run policy w).1
    unfolding execute_permitted
    execute_permitted-ByTool policy w =
        elim (record_event-atomic env.isoformat env.digest (authorization env c run policy)
          run.first w.db) [
            | inr refused ↦ inl (ground arith)
            | inl stored ↦
                let reply = answer_for env c run w in
                let answers = authorized_world env c run policy w in
                inr (
                  ground (arith, finish-forwarded env c run policy reply answers),
                  ground (arith, finish-customers policy reply answers),
                )
          ]

    execute_new-ByTool : (w : World) → ByTool w (execute_new env c run w).1
    unfolding execute_new refuse
    execute_new-ByTool w =
        let (policy, decided, _) =
          evaluate_total env.coercions env.digest (policy_request c) run.evaluated_at w.db in
        elim (Bool-cases policy.allowed) [
          | inl allowed ↦ rw (decided, allowed) (execute_permitted-ByTool policy w)
          | inr denied ↦ rw (decided, denied) (inl (answer-customers _ run.first _ w))
        ]

    pub execute-ByTool : (w : World) → ByTool w (execute env c run w).1
    unfolding execute refuse_duplicate
    execute-ByTool w = elim (Bool-cases (has_idempotency_key c.agent_id c.idempotency_key w.db)) [
      | inl used ↦ rw used (inl (answer-customers _ run.first _ w))
      | inr fresh ↦ rw fresh (execute_new-ByTool w)
    ]
