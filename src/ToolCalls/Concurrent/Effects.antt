-- ===== src/ToolCalls/Concurrent/Effects.antt =====
-- What the first part of a call changes: it sends the call to the adapter, after an authorization was
-- stored, or it only adds events.
use mathlib.Core.List.{append-nil}
use tool_permission_enforcer.Base.{
  true, false, List, [], ◌∷◌, ◌++◌, ◌≡◌, ◌⊎◌, refl, sym, ◌∙◌, ap, inl, inr, arith, string_eq,
  Bool-cases,
}
use tool_permission_enforcer.Base.Outcome.{Result, ok, Exec, Result-cases}
use tool_permission_enforcer.Domain.Enums.{authorized}
use tool_permission_enforcer.Domain.Errors.{Error}
use tool_permission_enforcer.Domain.Models.{ToolCallAuditEvent}
use tool_permission_enforcer.Policy.Evaluator.{PolicyDecision}
use tool_permission_enforcer.Policy.Evaluator.Total.{evaluate_total}
use tool_permission_enforcer.Audit.Event.{pending_event}
use tool_permission_enforcer.Audit.Service.{has_idempotency_key, new_event}
use tool_permission_enforcer.Audit.Service.Append.{record_event-atomic}
use tool_permission_enforcer.ToolCalls.{
  Env, Call, Run, World, ToolCallOutcome, audit_input_with, refuse, refuse_duplicate,
  policy_request, decide,
}
use tool_permission_enforcer.ToolCalls.Forwarding.{
  authorization, sent_world, refuse-forwarded, refuse_duplicate-forwarded,
}
use tool_permission_enforcer.ToolCalls.Idempotency.{refuse-later, refuse_duplicate-later}
use tool_permission_enforcer.ToolCalls.Concurrent.{
  Progress, awaits, begin_permitted, answering, begin_new, begin,
}

-- Events were added, and the adapter was not invoked.
pub record IsQuiet (w w' : World) : Type 0 where
  pub log : w'.forwarded ≡ w.forwarded
  pub later : List ToolCallAuditEvent
  pub events : w'.db.events ≡ w.db.events ++ later

-- The event authorizes the call.
pub record Authorizes (c : Call) (e : ToolCallAuditEvent) : Type 0 where
  pub agent : e.agent_id ≡ c.agent_id
  pub key : e.idempotency_key ≡ c.idempotency_key
  pub tool : e.tool ≡ c.tool
  pub operation : e.operation ≡ c.operation
  pub status : e.execution_status ≡ authorized

-- The call had a new key, was authorized, and was sent.
pub record IsSent (c : Call) (w w' : World) : Type 0 where
  pub fresh : has_idempotency_key c.agent_id c.idempotency_key w.db ≡ false
  pub log : w'.forwarded ≡ w.forwarded ++ (c ∷ [])
  pub event : ToolCallAuditEvent
  pub authorizes : Authorizes c event
  pub events : w'.db.events ≡ w.db.events ++ (event ∷ [])

answering-world :
    (env : Env) (m : Exec World Error ToolCallOutcome) (w : World) → (answering env m w).1 ≡ (m w).1
answering-world env m w = elim (Result-cases (m w).0) [
  | inl (o, e) ↦ ground arith
  | inr (x, e) ↦ ground arith
]

module _ (env : Env) (c : Call) (run : Run) where
  authorization-Authorizes :
      (policy : PolicyDecision) (w : World)
      → Authorizes c
          (new_event env.isoformat env.digest (authorization env c run policy) run.first w.db)
  unfolding new_event pending_event audit_input_with
  authorization-Authorizes policy w = record {
    agent = refl;
    key = refl;
    tool = refl;
    operation = refl;
    status = refl;
  }

  pub begin_permitted-cases :
      (policy : PolicyDecision) (w : World)
      → ((begin_permitted env c run policy w).1 ≡ w)
        ⊎ (begin_permitted env c run policy w ≡ (ok (awaits policy), sent_world env c run policy w))
  unfolding begin_permitted
  begin_permitted-cases policy w =
      elim (record_event-atomic env.isoformat env.digest (authorization env c run policy) run.first
        w.db) [ inl stored ↦ inr (ground arith) | inr refused ↦ inl (ground arith) ]

  refuse-IsQuiet : (policy : PolicyDecision) (w : World) → IsQuiet w (refuse env c run policy w).1
  refuse-IsQuiet policy w =
      let (later, events) = refuse-later env c run policy w in
      record { log = refuse-forwarded env c run policy w; later = later; events = events }

  refuse_duplicate-IsQuiet : (w : World) → IsQuiet w (refuse_duplicate env c run w).1
  refuse_duplicate-IsQuiet w =
      let (later, events) = refuse_duplicate-later env c run w in
      record { log = refuse_duplicate-forwarded env c run w; later = later; events = events }

  -- The parts of `begin`, by the answers of the lookup and of the policy.
  pub begin_used :
      (w : World)
      → has_idempotency_key c.agent_id c.idempotency_key w.db ≡ true
      → begin env c run w ≡ answering env (refuse_duplicate env c run) w
  unfolding begin
  begin_used w used = rw used

  pub begin_fresh :
      (w : World) (policy : PolicyDecision)
      → has_idempotency_key c.agent_id c.idempotency_key w.db ≡ false
      → decide env c run w.db ≡ ok policy
      → policy.allowed ≡ true
      → begin env c run w ≡ begin_permitted env c run policy w
  unfolding begin begin_new
  begin_fresh w policy fresh decided allowed = rw (fresh, decided, allowed)

  pub begin_denied :
      (w : World) (policy : PolicyDecision)
      → has_idempotency_key c.agent_id c.idempotency_key w.db ≡ false
      → decide env c run w.db ≡ ok policy
      → policy.allowed ≡ false
      → begin env c run w ≡ answering env (refuse env c run policy) w
  unfolding begin begin_new
  begin_denied w policy fresh decided denied = rw (fresh, decided, denied)

  begin_permitted-effect :
      (policy : PolicyDecision) (w : World)
      → has_idempotency_key c.agent_id c.idempotency_key w.db ≡ false
      → IsQuiet w (begin_permitted env c run policy w).1
        ⊎ IsSent c w (begin_permitted env c run policy w).1
  begin_permitted-effect policy w fresh = elim (begin_permitted-cases policy w) [
    | inl same ↦ inl (record {
      log = ap (λ (x : World). x.forwarded) same;
      later = [];
      events = ap (λ (x : World). x.db.events) same ∙ sym (append-nil w.db.events);
    })
    | inr sent ↦ inr (record {
      fresh = fresh;
      log = ap (λ (x : Result Error Progress × World). x.1.forwarded) sent;
      event = new_event env.isoformat env.digest (authorization env c run policy) run.first w.db;
      authorizes = authorization-Authorizes policy w;
      events = ap (λ (x : Result Error Progress × World). x.1.db.events) sent;
    })
  ]

  pub begin-effect :
      (w : World) → IsQuiet w (begin env c run w).1 ⊎ IsSent c w (begin env c run w).1
  begin-effect w =
      let (policy, decided, _) =
        evaluate_total env.coercions env.digest (policy_request c) run.evaluated_at w.db in
      elim (Bool-cases (has_idempotency_key c.agent_id c.idempotency_key w.db)) [
        | inl used ↦ rw (begin_used w used, answering-world) (inl (refuse_duplicate-IsQuiet w))
        | inr fresh ↦ elim (Bool-cases policy.allowed) [
          | inl allowed ↦
              rw (begin_fresh w policy fresh decided allowed)
                (begin_permitted-effect policy w fresh)
          | inr denied ↦
              rw (begin_denied w policy fresh decided denied, answering-world)
                (inl (refuse-IsQuiet policy w))
        ]
      ]
