-- ===== src/ToolCalls/Forwarding.antt =====
-- When a tool call reaches the adapter.
use mathlib.Core.List.{append-nil, append_assoc}
use tool_permission_enforcer.Base.{
  true, false, List, [], ◌∷◌, ◌++◌, ◌≡◌, refl, sym, ◌⊎◌, inl, inr, arith, map, Bool-cases,
}
use tool_permission_enforcer.Base.Outcome.{Result, ok, err}
use tool_permission_enforcer.Domain.Enums.{authorized}
use tool_permission_enforcer.Domain.Errors.{Error, tool_execution_error}
use tool_permission_enforcer.Domain.Models.{ToolCallAuditEvent}
use tool_permission_enforcer.Store.{Db}
use tool_permission_enforcer.Policy.Evaluator.{PolicyDecision}
use tool_permission_enforcer.Policy.Evaluator.Permits.{Permits, allows, evaluate-Permits}
use tool_permission_enforcer.Policy.Evaluator.Total.{evaluate_total}
use tool_permission_enforcer.Audit.Event.{AuditEventInput, pending_event}
use tool_permission_enforcer.Audit.Service.{Stamp, has_idempotency_key, new_event}
use tool_permission_enforcer.Audit.Service.Append.{record_event-atomic}
use tool_permission_enforcer.Tools.Adapter.{ToolExecutionResult}
use tool_permission_enforcer.ToolCalls.{
  Env, Call, Run, World, ToolCallOutcome, allow, outcome, audit_input_with, policy_request,
  record_call, answer, finish, execute_permitted, refuse, refuse_duplicate, decide, execute_new,
  execute, tool_request, tool_writes,
}

module _ (env : Env) (c : Call) (run : Run) where
  -- The audit input of an authorization.
  abbrev pub authorization : PolicyDecision → AuditEventInput
  authorization policy =
      audit_input_with policy c run (outcome run allow "ALLOWED" "Tool call is permitted") 0
        authorized run.first_latency_ms

  -- What is known when the adapter was invoked: the key was new, the policy permits the call, and
  -- the authorization was stored before.
  pub record Forwarded (w : World) : Type 0 where
    pub fresh : has_idempotency_key c.agent_id c.idempotency_key w.db ≡ false
    pub permitted : Permits env.coercions env.digest (policy_request c) run.evaluated_at w.db
    pub event : ToolCallAuditEvent
    pub later : List ToolCallAuditEvent
    pub stored : (execute env c run w).1.db.events ≡ w.db.events ++ event ∷ later
    pub status : event.execution_status ≡ authorized
    pub agent : event.agent_id ≡ c.agent_id
    pub key : event.idempotency_key ≡ c.idempotency_key
    pub log : (execute env c run w).1.forwarded ≡ w.forwarded ++ (c ∷ [])

  authorization_event :
      (policy : PolicyDecision) (db : Db)
      → let e = new_event env.isoformat env.digest (authorization policy) run.first db in
        (e.execution_status ≡ authorized)
        × (e.agent_id ≡ c.agent_id)
        × (e.idempotency_key ≡ c.idempotency_key)
  unfolding new_event pending_event audit_input_with
  authorization_event policy db = (refl, refl, refl)

  pub finish-forwarded :
      (policy : PolicyDecision) (answer : Result Error ToolExecutionResult) (w : World)
      → (finish env c run policy answer w).1.forwarded ≡ w.forwarded
  unfolding finish
  finish-forwarded policy (ok x) w = ground arith
  finish-forwarded policy (err (tool_execution_error code message up)) w = ground arith
  finish-forwarded policy (err _) w = refl

  pub refuse-forwarded :
      (policy : PolicyDecision) (w : World) → (refuse env c run policy w).1.forwarded ≡ w.forwarded
  unfolding refuse
  refuse-forwarded policy w = ground arith

  pub refuse_duplicate-forwarded :
      (w : World) → (refuse_duplicate env c run w).1.forwarded ≡ w.forwarded
  unfolding refuse_duplicate
  refuse_duplicate-forwarded w = ground arith

  pub record_call-later :
      (d : AuditEventInput) (stamp : Stamp) (w : World)
      → (later : List ToolCallAuditEvent) × ((record_call env d stamp w).1.db.events
          ≡ w.db.events ++ later)
  record_call-later d stamp w = elim (record_event-atomic env.isoformat env.digest d stamp w.db) [
    | inl stored ↦ (new_event env.isoformat env.digest d stamp w.db ∷ [], ground arith)
    | inr refused ↦ ([], ground (arith, append-nil w.db.events))
  ]

  pub answer-later :
      (d : AuditEventInput) (stamp : Stamp) (o : ToolCallOutcome) (w : World)
      → (later : List ToolCallAuditEvent) × ((answer env d stamp o w).1.db.events
          ≡ w.db.events ++ later)
  answer-later d stamp o w =
      let (later, e) = record_call-later d stamp w in (later, ground (arith, e))

  pub finish-later :
      (policy : PolicyDecision) (answer : Result Error ToolExecutionResult) (w : World)
      → (later : List ToolCallAuditEvent) × ((finish env c run policy answer w).1.db.events
          ≡ w.db.events ++ later)
  unfolding finish
  finish-later policy (ok x) w = answer-later _ run.second _ w
  finish-later policy (err (tool_execution_error code message up)) w = answer-later _ run.second _ w
  finish-later policy (err _) w = ([], sym (append-nil w.db.events))

  abbrev pub answer_for : World → Result Error ToolExecutionResult
  answer_for w = env.adapter (map tool_request w.forwarded) (tool_request c)

  -- The world in which the adapter is called.
  abbrev pub sent_world : PolicyDecision → World → World
  sent_world policy w =
      let e = new_event env.isoformat env.digest (authorization policy) run.first w.db in
      record {
        db = record (w.db) { events = w.db.events ++ (e ∷ []) };
        forwarded = w.forwarded ++ (c ∷ []);
      }

  -- The world in which the adapter answers.
  abbrev pub authorized_world : PolicyDecision → World → World
  authorized_world policy w =
      let sent = sent_world policy w in
      record sent { db = record (sent.db) { customers = tool_writes env c w } }

  -- An execution that answered a permitted call, from the start of its authorization.
  pub execute_permitted-cases :
      (policy : PolicyDecision) (w : World)
      → ((execute_permitted env c run policy w).1 ≡ w)
        ⊎ ((later : List ToolCallAuditEvent) × ((execute_permitted env c run policy w).1.db.events
              ≡ w.db.events
                ++ new_event env.isoformat env.digest (authorization policy) run.first w.db ∷ later)
            × ((execute_permitted env c run policy w).1.forwarded ≡ w.forwarded ++ (c ∷ [])))
  unfolding execute_permitted
  execute_permitted-cases policy w =
      elim (record_event-atomic env.isoformat env.digest (authorization policy) run.first w.db) [
        | inr refused ↦ inl (ground arith)
        | inl stored ↦
            let (later, events) = finish-later policy (answer_for w) (authorized_world policy w) in
            inr (
              later,
              ground (
                arith,
                events,
                append_assoc w.db.events
                    (new_event env.isoformat env.digest (authorization policy) run.first w.db ∷ [])
                    later,
              ),
              ground (arith, finish-forwarded policy (answer_for w) (authorized_world policy w)),
            )
      ]

  -- A call that the policy does not allow, or whose key was used before, never reaches the adapter.
  execute-not-forwarded :
      (w : World)
      → (has_idempotency_key c.agent_id c.idempotency_key w.db ≡ true)
        ⊎ (allows (decide env c run w.db) ≡ false)
      → (execute env c run w).1.forwarded ≡ w.forwarded
  unfolding execute execute_new
  execute-not-forwarded w h =
      let (policy, decided, _) =
        evaluate_total env.coercions env.digest (policy_request c) run.evaluated_at w.db in
      ground (arith, decided, refuse-forwarded policy w, refuse_duplicate-forwarded w)

  -- A call that reaches the adapter has a new key and a policy that permits it; its authorization
  -- was stored first, and it reaches the adapter once.
  pub execute-Forwarded :
      (w : World) → ((execute env c run w).1.forwarded ≡ w.forwarded) ⊎ Forwarded w
  unfolding execute execute_new
  execute-Forwarded w =
      let (policy, decided, _) =
        evaluate_total env.coercions env.digest (policy_request c) run.evaluated_at w.db in
      elim (Bool-cases (has_idempotency_key c.agent_id c.idempotency_key w.db)) [
        | inl used ↦ inl (execute-not-forwarded w (inl used))
        | inr fresh ↦ elim (Bool-cases policy.allowed) [
          | inr denied ↦ inl (execute-not-forwarded w (inr (rw decided denied)))
          | inl allowed ↦ elim (execute_permitted-cases policy w) [
            | inl same ↦ inl (ground (arith, same))
            | inr (later, events, log) ↦ inr (record {
              fresh = fresh;
              permitted =
                  (evaluate-Permits env.coercions env.digest (policy_request c) run.evaluated_at
                      w.db).0
                    (rw decided allowed);
              event = new_event env.isoformat env.digest (authorization policy) run.first w.db;
              later = later;
              stored = ground (arith, events);
              status = (authorization_event policy w.db).0;
              agent = (authorization_event policy w.db).1;
              key = (authorization_event policy w.db).2;
              log = ground (arith, log);
            })
          ]
        ]
      ]
