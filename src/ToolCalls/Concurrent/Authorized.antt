-- ===== src/ToolCalls/Concurrent/Authorized.antt =====
-- Every call that reached the adapter has its authorization in the audit events.
use mathlib.Core.List.{append_assoc}
use tool_permission_enforcer.Base.{All, List, [], ◌∷◌, ◌++◌, ◌≡◌, refl, inl, inr, string_eq}
use tool_permission_enforcer.Domain.Models.{ToolCallAuditEvent}
use tool_permission_enforcer.ToolCalls.{Env, Call, Run, World, finish}
use tool_permission_enforcer.ToolCalls.Concurrent.{
  Process, Step, begins, resumes, cancelled, others, Reach, here, next, begin,
}
use tool_permission_enforcer.ToolCalls.Concurrent.Effects.{
  IsQuiet, Authorizes, IsSent, begin-effect,
}
use tool_permission_enforcer.ToolCalls.Concurrent.Once.{finish-IsQuiet}

-- An event of the list authorizes the call.
abbrev pub HasAuthorization : List ToolCallAuditEvent → Call → Type 0
HasAuthorization events c =
    (before : List ToolCallAuditEvent) × (e : ToolCallAuditEvent) × (after : List
      ToolCallAuditEvent)
    × (events ≡ before ++ e ∷ after)
    × Authorizes c e

abbrev pub IsAuthorized : World → Type 0
IsAuthorized w = All (HasAuthorization w.db.events) w.forwarded

HasAuthorization-append :
    (events later : List ToolCallAuditEvent) (c : Call)
    → HasAuthorization events c
    → HasAuthorization (events ++ later) c
HasAuthorization-append events later c (before, e, after, split, authorizes) =
    (before, e, after ++ later, rw split (append_assoc before (e ∷ after) later), authorizes)

All-later :
    (events later : List ToolCallAuditEvent) (cs : List Call)
    → All (HasAuthorization events) cs
    → All (HasAuthorization (events ++ later)) cs
All-later events later [] h = tt
All-later events later (c ∷ cs) (first, rest) =
    (HasAuthorization-append events later c first, All-later events later cs rest)

All-snoc :
    (events : List ToolCallAuditEvent) (cs : List Call) (c : Call)
    → All (HasAuthorization events) cs
    → HasAuthorization events c
    → All (HasAuthorization events) (cs ++ (c ∷ []))
All-snoc events [] c h last = (last, tt)
All-snoc events (d ∷ cs) c (first, rest) last = (first, All-snoc events cs c rest last)

IsQuiet-IsAuthorized : (w w' : World) → IsQuiet w w' → IsAuthorized w → IsAuthorized w'
IsQuiet-IsAuthorized w w' q h = rw (q.log, q.events) (All-later w.db.events q.later w.forwarded h)

IsSent-IsAuthorized : (c : Call) (w w' : World) → IsSent c w w' → IsAuthorized w → IsAuthorized w'
IsSent-IsAuthorized c w w' s h =
    rw (s.log, s.events)
      (All-snoc (w.db.events ++ (s.event ∷ [])) w.forwarded c
        (All-later w.db.events (s.event ∷ []) w.forwarded h)
        (w.db.events, s.event, [], refl, s.authorizes))

begin-IsAuthorized :
    (env : Env) (c : Call) (run : Run) (w : World)
    → IsAuthorized w
    → IsAuthorized (begin env c run w).1
begin-IsAuthorized env c run w h = elim (begin-effect env c run w) [
  | inl quiet ↦ IsQuiet-IsAuthorized w (begin env c run w).1 quiet h
  | inr sent ↦ IsSent-IsAuthorized c w (begin env c run w).1 sent h
]

Step-IsAuthorized :
    {env : Env} {p q : Process} → Step env p q → IsAuthorized p.world → IsAuthorized q.world
Step-IsAuthorized {env} {p} (begins c run) h = begin-IsAuthorized env c run p.world h
Step-IsAuthorized {env} {p} (resumes before after x reply e) h =
    IsQuiet-IsAuthorized p.world (finish env x.call x.run x.policy reply p.world).1
      (finish-IsQuiet env x reply p.world) h
Step-IsAuthorized (cancelled before after x e) h = h
Step-IsAuthorized {env} {p} (others db same) h = rw same h

-- However calls overlap, are answered or are cancelled: if each forwarded call has an event of its
-- agent, key, tool and operation with the status `authorized` at first, then this holds at every
-- later time.
pub Reach-IsAuthorized :
    {env : Env} {p q : Process} → IsAuthorized p.world → Reach env p q → IsAuthorized q.world
Reach-IsAuthorized h here = h
Reach-IsAuthorized h (next r s) = Step-IsAuthorized s (Reach-IsAuthorized h r)
