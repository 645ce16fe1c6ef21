-- ===== src/ToolCalls/Tables.antt =====
-- A call writes no table but the events and, by the tool that it calls, the customers.
use tool_permission_enforcer.Base.{◌≡◌, refl, inl, inr, arith, string_eq, Bool-cases}
use tool_permission_enforcer.Base.Outcome.{Result, ok, err}
use tool_permission_enforcer.Domain.Errors.{Error, tool_execution_error}
use tool_permission_enforcer.Tools.Adapter.{ToolExecutionResult}
use tool_permission_enforcer.Store.{Db}
use tool_permission_enforcer.Policy.Evaluator.{PolicyDecision}
use tool_permission_enforcer.Policy.Evaluator.Total.{evaluate_total}
use tool_permission_enforcer.Audit.Event.{AuditEventInput}
use tool_permission_enforcer.Audit.Service.{Stamp, has_idempotency_key}
use tool_permission_enforcer.Audit.Service.Append.{record_event-atomic}
use tool_permission_enforcer.ToolCalls.{
  Env, Call, Run, World, ToolCallOutcome, answer, finish, execute_permitted, refuse,
  refuse_duplicate, execute_new, execute, policy_request,
}
use tool_permission_enforcer.ToolCalls.Forwarding.{authorization, authorized_world, answer_for}

-- Every table but the events and the customers.
pub record KeepsTables (db db' : Db) : Type 0 where
  pub agents : db'.agents ≡ db.agents
  pub tools : db'.tools ≡ db.tools
  pub manifests : db'.manifests ≡ db.manifests
  pub sessions : db'.sessions ≡ db.sessions

pub KeepsTables-refl : (db : Db) → KeepsTables db db
KeepsTables-refl db = record { agents = refl; tools = refl; manifests = refl; sessions = refl }

module _ (env : Env) where
  answer-KeepsTables :
      (d : AuditEventInput) (stamp : Stamp) (o : ToolCallOutcome) (w : World)
      → KeepsTables w.db (answer env d stamp o w).1.db
  answer-KeepsTables d stamp o w =
      elim (record_event-atomic env.isoformat env.digest d stamp w.db) [
        | inl stored ↦ record {
          agents = ground arith;
          tools = ground arith;
          manifests = ground arith;
          sessions = ground arith;
        }
        | inr refused ↦ record {
          agents = ground arith;
          tools = ground arith;
          manifests = ground arith;
          sessions = ground arith;
        }
      ]

  module _ (c : Call) (run : Run) where
    finish-KeepsTables :
        (policy : PolicyDecision) (reply : Result Error ToolExecutionResult) (w : World)
        → KeepsTables w.db (finish env c run policy reply w).1.db
    unfolding finish
    finish-KeepsTables policy (ok x) w = answer-KeepsTables _ run.second _ w
    finish-KeepsTables policy (err (tool_execution_error code message up)) w =
        answer-KeepsTables _ run.second _ w
    finish-KeepsTables policy (err _) w = KeepsTables-refl w.db

    execute_permitted-KeepsTables :
        (policy : PolicyDecision) (w : World)
        → KeepsTables w.db (execute_permitted env c run policy w).1.db
    unfolding execute_permitted
    execute_permitted-KeepsTables policy w =
        elim (record_event-atomic env.isoformat env.digest (authorization env c run policy)
          run.first w.db) [
            | inr refused ↦ record {
              agents = ground arith;
              tools = ground arith;
              manifests = ground arith;
              sessions = ground arith;
            }
            | inl stored ↦
                let kept =
                  finish-KeepsTables policy (answer_for env c run w)
                    (authorized_world env c run policy w) in
                record {
                  agents = ground (arith, kept.agents);
                  tools = ground (arith, kept.tools);
                  manifests = ground (arith, kept.manifests);
                  sessions = ground (arith, kept.sessions);
                }
          ]

    execute_new-KeepsTables : (w : World) → KeepsTables w.db (execute_new env c run w).1.db
    unfolding execute_new refuse
    execute_new-KeepsTables w =
        let (policy, decided, _) =
          evaluate_total env.coercions env.digest (policy_request c) run.evaluated_at w.db in
        elim (Bool-cases policy.allowed) [
          | inl allowed ↦ rw (decided, allowed) (execute_permitted-KeepsTables policy w)
          | inr denied ↦ rw (decided, denied) (answer-KeepsTables _ run.first _ w)
        ]

    pub execute-KeepsTables : (w : World) → KeepsTables w.db (execute env c run w).1.db
    unfolding execute refuse_duplicate
    execute-KeepsTables w =
        elim (Bool-cases (has_idempotency_key c.agent_id c.idempotency_key w.db)) [
          | inl used ↦ rw used (answer-KeepsTables _ run.first _ w)
          | inr fresh ↦ rw fresh (execute_new-KeepsTables w)
        ]
