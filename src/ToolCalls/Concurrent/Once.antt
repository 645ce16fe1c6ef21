-- ===== src/ToolCalls/Concurrent/Once.antt =====
-- In one process an idempotency key reaches the adapter at most once, however its calls overlap.
use tool_permission_enforcer.Base.{◌≡◌, inl, inr, arith, string_eq}
use tool_permission_enforcer.Store.{Db}
use tool_permission_enforcer.ToolCalls.{Env, Call, Run, World, finish}
use tool_permission_enforcer.Base.Outcome.{Result}
use tool_permission_enforcer.Domain.Errors.{Error}
use tool_permission_enforcer.Tools.Adapter.{ToolExecutionResult}
use tool_permission_enforcer.ToolCalls.Forwarding.{finish-forwarded, finish-later}
use tool_permission_enforcer.ToolCalls.Idempotency.{
  IsOnce, times-append, any-append, has_idempotency_key-any,
}
use tool_permission_enforcer.ToolCalls.Concurrent.{
  Process, Waiting, Step, begins, resumes, cancelled, others, Reach, here, next, begin,
}
use tool_permission_enforcer.ToolCalls.Concurrent.Effects.{IsQuiet, IsSent, begin-effect}

IsQuiet-IsOnce : (w w' : World) → IsQuiet w w' → IsOnce w → IsOnce w'
IsQuiet-IsOnce w w' q h = record {
  once = λ a k. rw (q.log) (h.once a k);
  audited = λ a k n. rw (q.events, any-append) (ground (arith, h.audited a k, q.log));
}

IsSent-IsOnce : (c : Call) (w w' : World) → IsSent c w w' → IsOnce w → IsOnce w'
IsSent-IsOnce c w w' s h = record {
  once = λ a k.
      rw (s.log, times-append)
        (ground (arith, h.once a k, h.audited a k, has_idempotency_key-any a k w.db, s.fresh));
  audited = λ a k n.
      rw (s.events, any-append)
        (ground (
          arith,
          s.authorizes.agent,
          s.authorizes.key,
          s.log,
          times-append a k w.forwarded c,
          h.audited a k,
        ));
}

begin-IsOnce :
    (env : Env) (c : Call) (run : Run) (w : World) → IsOnce w → IsOnce (begin env c run w).1
begin-IsOnce env c run w h = elim (begin-effect env c run w) [
  | inl quiet ↦ IsQuiet-IsOnce w (begin env c run w).1 quiet h
  | inr sent ↦ IsSent-IsOnce c w (begin env c run w).1 sent h
]

pub finish-IsQuiet :
    (env : Env) (x : Waiting) (reply : Result Error ToolExecutionResult) (w : World)
    → IsQuiet w (finish env x.call x.run x.policy reply w).1
finish-IsQuiet env x reply w =
    let (later, events) = finish-later env x.call x.run x.policy reply w in
    record {
      log = finish-forwarded env x.call x.run x.policy reply w;
      later = later;
      events = events;
    }

others-IsOnce :
    (db : Db) (w : World) → db.events ≡ w.db.events → IsOnce w → IsOnce (record w { db = db })
others-IsOnce db w same h = record { once = h.once; audited = λ a k n. rw same (h.audited a k n) }

Step-IsOnce : {env : Env} {p q : Process} → Step env p q → IsOnce p.world → IsOnce q.world
Step-IsOnce {env} {p} (begins c run) h = begin-IsOnce env c run p.world h
Step-IsOnce {env} {p} (resumes before after x reply e) h =
    IsQuiet-IsOnce p.world (finish env x.call x.run x.policy reply p.world).1
      (finish-IsQuiet env x reply p.world) h
Step-IsOnce (cancelled before after x e) h = h
Step-IsOnce {env} {p} (others db same) h = others-IsOnce db p.world same h

-- Whatever calls begin, give way, are resumed with whatever reply or are cancelled, and whatever the
-- other routes write in between: if no key was forwarded twice at first and the forwarded keys are in
-- the audit events, this holds at every later time.
pub Reach-IsOnce : {env : Env} {p q : Process} → IsOnce p.world → Reach env p q → IsOnce q.world
Reach-IsOnce h here = h
Reach-IsOnce h (next r s) = Step-IsOnce s (Reach-IsOnce h r)
