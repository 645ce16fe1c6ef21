-- ===== src/ToolCalls/Concurrent.antt =====
-- Calls that overlap. `ToolCallService.execute` is a coroutine that gives way only where it awaits
-- the adapter: in one process a call runs from its start to that await, and from the reply to its
-- end, with no other in between. The reply may be anything, and a call that waits may be cancelled.
pub mod Effects
pub mod Once
pub mod Authorized
pub mod Sequential
pub mod Race
use tool_permission_enforcer.Base.{List, [], ◌∷◌, ◌++◌, ◌≡◌, if◌then◌else◌}
use tool_permission_enforcer.Base.Outcome.{
  Result, ok, err, Exec, ◌>>=◌, ◌>>◌, pure, lift, gets, modify,
}
use tool_permission_enforcer.Domain.Enums.{authorized}
use tool_permission_enforcer.Domain.Errors.{Error}
use tool_permission_enforcer.Store.{Db}
use tool_permission_enforcer.Policy.Evaluator.{PolicyDecision}
use tool_permission_enforcer.Audit.Service.{has_idempotency_key}
use tool_permission_enforcer.Tools.Adapter.{ToolExecutionResult}
use tool_permission_enforcer.ToolCalls.{
  Env, Call, Run, World, ToolCallOutcome, allow, outcome, audit_input_with, record_call, refuse,
  refuse_duplicate, decide, finish,
}

-- Where a call stands when it gives way for the first time.
pub data Progress : Type 0 where
  answered : ToolCallOutcome → Progress
  awaits : PolicyDecision → Progress

module _ (env : Env) where
  -- The authorization, and the call of the adapter.
  unfoldable pub begin_permitted : Call → Run → PolicyDecision → Exec World Error Progress
  begin_permitted c run policy = do
    let o : ToolCallOutcome = outcome run allow "ALLOWED" "Tool call is permitted"
    record_call env (audit_input_with policy c run o 0 authorized run.first_latency_ms) run.first
    modify (λ w. record w { forwarded = w.forwarded ++ (c ∷ []) })
    pure (awaits policy)

  abbrev pub answering : Exec World Error ToolCallOutcome → Exec World Error Progress
  answering m = do o ← m; pure (answered o)

  unfoldable pub begin_new : Call → Run → Exec World Error Progress
  begin_new c run = do
    decision ← gets (λ w. decide env c run w.db)
    policy ← lift decision
    if policy.allowed then begin_permitted c run policy else answering (refuse env c run policy)

  -- `execute` up to the await, or to its end.
  unfoldable pub begin : Call → Run → Exec World Error Progress
  begin c run = do
    used ← gets (λ w. has_idempotency_key c.agent_id c.idempotency_key w.db)
    if used then answering (refuse_duplicate env c run) else begin_new c run

-- A call that awaits the adapter.
pub record Waiting : Type 0 where
  pub call : Call
  pub run : Run
  pub policy : PolicyDecision

pub record Process : Type 0 where
  pub world : World
  pub waiting : List Waiting

abbrev pub waiting_of : Call → Run → Result Error Progress → List Waiting
waiting_of c run (ok (awaits policy)) = record { call = c; run = run; policy = policy } ∷ []
waiting_of c run _ = []

-- What may happen next. `others` stands for the other routes, for administrators and for the called
-- tool: they write every table but the events.
pub data Step (env : Env) (p : Process) : Process → Type 0 where
  begins :
      (c : Call) (run : Run)
      → Step env p (record {
        world = (begin env c run p.world).1;
        waiting = p.waiting ++ waiting_of c run (begin env c run p.world).0;
      })
  resumes :
      (before after : List Waiting) (x : Waiting) (reply : Result Error ToolExecutionResult)
      → p.waiting ≡ before ++ x ∷ after
      → Step env p (record {
        world = (finish env x.call x.run x.policy reply p.world).1;
        waiting = before ++ after;
      })
  cancelled :
      (before after : List Waiting) (x : Waiting)
      → p.waiting ≡ before ++ x ∷ after
      → Step env p (record p { waiting = before ++ after })
  others :
      (db : Db)
      → db.events ≡ p.world.db.events
      → Step env p (record p { world = record (p.world) { db = db } })

pub data Reach (env : Env) (s : Process) : Process → Type 0 where
  here : Reach env s s
  next : {t u : Process} → Reach env s t → Step env t u → Reach env s u
