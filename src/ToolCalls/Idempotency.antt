-- ===== src/ToolCalls/Idempotency.antt =====
-- An idempotency key reaches the adapter at most once, over any series of calls.
use mathlib.Core.List.{append-nil}
use tool_permission_enforcer.Base.{
  ℕ, ◌+◌, ◌≤◌, String, Bool, true, false, ◌&&◌, ◌||◌, Option, none, some, List, [], ◌∷◌, ◌++◌, ◌≡◌,
  ◌≢◌, refl, inl, inr, arith, ◌==◌, string_eq, length, all_where, any, insert_by, order_by, head_of,
  Bool-cases, if◌then◌else◌,
}
use tool_permission_enforcer.Domain.Models.{ToolCallAuditEvent}
use tool_permission_enforcer.Store.{Db}
use tool_permission_enforcer.Store.Events
use tool_permission_enforcer.Policy.Evaluator.{PolicyDecision}
use tool_permission_enforcer.Policy.Evaluator.Total.{evaluate_total}
use tool_permission_enforcer.Audit.Service.{has_idempotency_key}
use tool_permission_enforcer.ToolCalls.{
  Env, Call, Run, World, refuse, refuse_duplicate, execute_permitted, execute_new, execute, serve,
  policy_request,
}
use tool_permission_enforcer.ToolCalls.Forwarding.{
  execute-Forwarded, execute_permitted-cases, answer-later,
}

module _ {A : Type 0} where
  abbrev is_there : Option A → Bool
  is_there none = false
  is_there (some a) = true

  insert_by-found :
      (le : A → A → Bool) (x : A) (ys : List A) → is_there (head_of (insert_by le x ys)) ≡ true
  insert_by-found le x [] = refl
  insert_by-found le x (y ∷ ys) = ground arith

  found_iff_any :
      (le : A → A → Bool) (p : A → Bool) (xs : List A)
      → is_there (head_of (order_by le (all_where p xs))) ≡ any p xs
  found_iff_any le p [] = refl
  found_iff_any le p (x ∷ xs) =
      ground (arith, found_iff_any le p xs, insert_by-found le x (order_by le (all_where p xs)))

  pub any-append : (p : A → Bool) (xs ys : List A) → any p (xs ++ ys) ≡ (any p xs || any p ys)
  any-append p [] ys = refl
  any-append p (x ∷ xs) ys = ground (arith, any-append p xs ys)

-- A key was used exactly if an event of the agent holds it.
pub has_idempotency_key-any :
    (agent_id key : String) (db : Db)
    → has_idempotency_key agent_id key db ≡ any (Events.has_key agent_id key) db.events
unfolding has_idempotency_key Events.find_by_idempotency_key
has_idempotency_key-any agent_id key db =
    ground (arith, found_iff_any Events.not_after (Events.has_key agent_id key) db.events)

abbrev holds_key : String → String → Call → Bool
holds_key agent_id key c = c.agent_id == agent_id && c.idempotency_key == key

-- How often the adapter was invoked for a key of an agent.
abbrev pub times : String → String → List Call → ℕ
times agent_id key forwarded = length (all_where (holds_key agent_id key) forwarded)

pub times-append :
    (agent_id key : String) (cs : List Call) (c : Call)
    → times agent_id key (cs ++ (c ∷ []))
      ≡ times agent_id key cs + (if holds_key agent_id key c then 1 else 0)
times-append agent_id key [] c = ground arith
times-append agent_id key (d ∷ cs) c = ground (arith, times-append agent_id key cs c)

-- No key has reached the adapter twice, and one that has is found in the audit events.
pub record IsOnce (w : World) : Type 0 where
  pub once : (agent_id key : String) → times agent_id key w.forwarded ≤ 1
  pub audited :
      (agent_id key : String)
      → times agent_id key w.forwarded ≢ 0
      → any (Events.has_key agent_id key) w.db.events ≡ true

module _ (env : Env) (c : Call) (run : Run) where
  execute_permitted-later :
      (policy : PolicyDecision) (w : World)
      → (later : List ToolCallAuditEvent) × ((execute_permitted env c run policy w).1.db.events
          ≡ w.db.events ++ later)
  execute_permitted-later policy w = elim (execute_permitted-cases env c run policy w) [
    | inl same ↦ ([], ground (arith, same, append-nil w.db.events))
    | inr (later, events, log) ↦ (_, events)
  ]

  pub refuse-later :
      (policy : PolicyDecision) (w : World)
      → (later : List ToolCallAuditEvent) × ((refuse env c run policy w).1.db.events
          ≡ w.db.events ++ later)
  unfolding refuse
  refuse-later policy w = answer-later env c run _ run.first _ w

  pub refuse_duplicate-later :
      (w : World)
      → (later : List ToolCallAuditEvent) × ((refuse_duplicate env c run w).1.db.events
          ≡ w.db.events ++ later)
  unfolding refuse_duplicate
  refuse_duplicate-later w = answer-later env c run _ run.first _ w

  execute_new-later :
      (w : World)
      → (later : List ToolCallAuditEvent) × ((execute_new env c run w).1.db.events
          ≡ w.db.events ++ later)
  unfolding execute_new
  execute_new-later w =
      let (policy, decided, _) =
        evaluate_total env.coercions env.digest (policy_request c) run.evaluated_at w.db in
      elim (Bool-cases policy.allowed) [
        | inl allowed ↦
            let (later, e) = execute_permitted-later policy w in (later, ground (arith, decided, e))
        | inr denied ↦ let (later, e) = refuse-later policy w in (later, ground (arith, decided, e))
      ]

  -- Events are only added.
  pub execute-later :
      (w : World)
      → (later : List ToolCallAuditEvent) × ((execute env c run w).1.db.events
          ≡ w.db.events ++ later)
  unfolding execute
  execute-later w = elim (Bool-cases (has_idempotency_key c.agent_id c.idempotency_key w.db)) [
    | inl used ↦ let (later, e) = refuse_duplicate-later w in (later, ground (arith, e))
    | inr fresh ↦ let (later, e) = execute_new-later w in (later, ground (arith, e))
  ]

  execute-IsOnce : (w : World) → IsOnce w → IsOnce (execute env c run w).1
  execute-IsOnce w h =
      let (later, events) = execute-later w in
      elim (execute-Forwarded env c run w) [
        | inl same ↦ record {
          once = λ a k. rw same (h.once a k);
          audited = λ a k n. rw (events, any-append) (ground (arith, h.audited a k, same));
        }
        | inr f ↦ record {
          once = λ a k.
              rw (f.log, times-append)
                (ground
                  (arith, h.once a k, h.audited a k, has_idempotency_key-any a k w.db, f.fresh));
          audited = λ a k n.
              rw (f.stored, any-append)
                (ground
                  (arith, f.agent, f.key, f.log, times-append a k w.forwarded c, h.audited a k));
        }
      ]

-- Over any series of calls that starts where no key was forwarded twice and the forwarded keys are
-- in the audit events, the adapter is invoked at most once for each key of an agent.
pub serve-IsOnce :
    (env : Env) (calls : List (Call × Run)) (w : World) → IsOnce w → IsOnce (serve env w calls)
unfolding serve
serve-IsOnce env [] w h = h
serve-IsOnce env ((c, run) ∷ rest) w h =
    serve-IsOnce env rest (execute env c run w).1 (execute-IsOnce env c run w h)
