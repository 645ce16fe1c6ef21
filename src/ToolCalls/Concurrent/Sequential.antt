-- ===== src/ToolCalls/Concurrent/Sequential.antt =====
-- A call that is answered before the next one begins is a run of the process, with no call waiting
-- before or after it.
use tool_permission_enforcer.Base.{[], ◌≡◌, refl, sym, inl, inr, arith, string_eq, Bool-cases}
use tool_permission_enforcer.Base.Outcome.{Result, ok, err, Exec, Result-cases}
use tool_permission_enforcer.Domain.Errors.{Error}
use tool_permission_enforcer.Policy.Evaluator.{PolicyDecision}
use tool_permission_enforcer.Policy.Evaluator.Total.{evaluate_total}
use tool_permission_enforcer.Audit.Service.{has_idempotency_key}
use tool_permission_enforcer.Audit.Service.Append.{record_event-atomic}
use tool_permission_enforcer.ToolCalls.{
  Env, Call, Run, World, ToolCallOutcome, execute_permitted, execute_new, execute, finish, refuse,
  refuse_duplicate, policy_request, tool_writes,
}
use tool_permission_enforcer.ToolCalls.Forwarding.{authorization, answer_for}
use tool_permission_enforcer.ToolCalls.Concurrent.{
  Progress, answered, awaits, begin_permitted, answering, begin, Process, waiting_of, begins,
  resumes, others, Reach, here, next,
}
use tool_permission_enforcer.ToolCalls.Concurrent.Effects.{begin_used, begin_fresh, begin_denied}

module _ (env : Env) (c : Call) (run : Run) where
  -- The world in which the called tool, if it was called, has written.
  abbrev after_tool : World → World → World
  after_tool before w = record w { db = record (w.db) { customers = tool_writes env c before } }

  -- What follows the first part of a call that began in the world `before`.
  abbrev continue : World → Result Error Progress → World → Result Error ToolCallOutcome × World
  continue before (ok (answered o)) w = (ok o, w)
  continue before (ok (awaits policy)) w =
      finish env c run policy (answer_for env c run before) (after_tool before w)
  continue before (err e) w = (err e, w)

  continue-answering :
      (before : World) (m : Exec World Error ToolCallOutcome) (w : World)
      → continue before (answering env m w).0 (answering env m w).1 ≡ m w
  continue-answering before m w = elim (Result-cases (m w).0) [
    | inl (o, e) ↦ ground arith
    | inr (x, e) ↦ ground arith
  ]

  execute_permitted-continue :
      (policy : PolicyDecision) (w : World)
      → let b = begin_permitted env c run policy w in
        execute_permitted env c run policy w ≡ continue w b.0 b.1
  unfolding execute_permitted begin_permitted
  execute_permitted-continue policy w =
      elim (record_event-atomic env.isoformat env.digest (authorization env c run policy) run.first
        w.db) [ inl stored ↦ ground arith | inr refused ↦ ground arith ]

  -- The service, with the adapter's own reply, is the two parts of the call one after another, with
  -- the called tool in between.
  execute-continue :
      (w : World) → execute env c run w ≡ continue w (begin env c run w).0 (begin env c run w).1
  unfolding execute execute_new
  execute-continue w =
      let (policy, decided, _) =
        evaluate_total env.coercions env.digest (policy_request c) run.evaluated_at w.db in
      elim (Bool-cases (has_idempotency_key c.agent_id c.idempotency_key w.db)) [
        | inl used ↦
            rw (used, begin_used env c run w used)
              (sym (continue-answering w (refuse_duplicate env c run) w))
        | inr fresh ↦ elim (Bool-cases policy.allowed) [
          | inl allowed ↦
              rw (fresh, decided, allowed, begin_fresh env c run w policy fresh decided allowed)
                (execute_permitted-continue policy w)
          | inr denied ↦
              rw (fresh, decided, denied, begin_denied env c run w policy fresh decided denied)
                (sym (continue-answering w (refuse env c run policy) w))
        ]
      ]

abbrev pub idle : World → Process
idle w = record { world = w; waiting = [] }

begin-Reach :
    (env : Env) (c : Call) (run : Run) (w : World) (progress : Result Error Progress)
    → (begin env c run w).0 ≡ progress
    → Reach env
        (idle w)
        (record { world = (begin env c run w).1; waiting = waiting_of c run progress })
begin-Reach env c run w progress e = rw (sym e) (next here (begins c run))

-- One call leads from an idle process to an idle process.
pub execute-Reach :
    (env : Env) (c : Call) (run : Run) (w : World)
    → Reach env (idle w) (idle (execute env c run w).1)
execute-Reach env c run w = rw (execute-continue env c run w) (reached (begin env c run w).0 refl)
  where
    reached :
        (progress : Result Error Progress)
        → (begin env c run w).0 ≡ progress
        → Reach env (idle w) (idle (continue env c run w progress (begin env c run w).1).1)
    reached (ok (answered o)) e = begin-Reach env c run w (ok (answered o)) e
    reached (ok (awaits policy)) e =
        next
          (next (begin-Reach env c run w (ok (awaits policy)) e)
            (others (after_tool env c run w (begin env c run w).1).db refl))
          (resumes [] [] (record { call = c; run = run; policy = policy }) (answer_for env c run w)
            refl)
    reached (err x) e = begin-Reach env c run w (err x) e

pub Reach-trans : {env : Env} {p q r : Process} → Reach env p q → Reach env q r → Reach env p r
Reach-trans a here = a
Reach-trans a (next b s) = next (Reach-trans a b) s
