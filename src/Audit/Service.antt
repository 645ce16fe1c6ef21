-- ===== src/Audit/Service.antt =====
-- `AuditService` of audit/service.py. The parameters are those of `Audit.Event`; the instant and
-- the identifier of a new event come from the clock and from `uuid4`.
pub mod Chain
pub mod Append
pub mod Order
pub mod Tamper
use Prim.Native.String.{◌++◌ as ◌<>◌}
use tool_permission_enforcer.Base.{
  ℕ, String, Bool, true, false, not, ◌||◌, Option, none, some, List, [], ◌∷◌, ◌==◌, string_eq,
  option_eq, length, if◌then◌else◌,
}
use tool_permission_enforcer.Base.Json.{Json}
use tool_permission_enforcer.Base.Outcome.{◌>>=◌, gets}
use tool_permission_enforcer.Domain.Models.{ToolCallAuditEvent}
use tool_permission_enforcer.Store.{Db, Action, transaction}
use tool_permission_enforcer.Store.Events
use tool_permission_enforcer.Audit.Event.{AuditEventInput, pending_event, event_hash}

pub record IntegrityResult : Type 0 where
  pub valid : Bool
  pub events_checked : ℕ
  pub first_invalid_event_id : Option String

unfoldable pub has_idempotency_key : String → String → Db → Bool
has_idempotency_key agent_id idempotency_key db =
    elim (Events.find_by_idempotency_key agent_id idempotency_key db) [
      | none ↦ false
      | some e ↦ true
    ]

-- What the clock and `uuid4` give to one call of `record`.
pub record Stamp : Type 0 where
  pub hex : String
  pub now : ℕ

module _ (isoformat : ℕ → String) (digest : Json → String) where
  abbrev pub sealed : ToolCallAuditEvent → ToolCallAuditEvent
  sealed e = record e { record_hash = event_hash isoformat digest e }

  unfoldable pub new_event : AuditEventInput → Stamp → Db → ToolCallAuditEvent
  new_event d stamp db =
      sealed (pending_event d ("evt_" <> stamp.hex) stamp.now (Events.last_chain_event db))

  unfoldable pub record_event : AuditEventInput → Stamp → Action ToolCallAuditEvent
  record_event d stamp = transaction (do e ← gets (new_event d stamp); Events.add e)

  -- The test of one round of the loop.
  abbrev pub link_is_broken : Option String → ToolCallAuditEvent → Bool
  link_is_broken previous_hash e =
      not (e.previous_record_hash == previous_hash)
      || not (e.record_hash == event_hash isoformat digest e)

  -- The loop over the events, with the number that is reported.
  verify_from : ℕ → Option String → List ToolCallAuditEvent → IntegrityResult
  verify_from checked previous_hash [] = record {
    valid = true;
    events_checked = checked;
    first_invalid_event_id = none;
  }
  verify_from checked previous_hash (e ∷ events) =
      let rest = verify_from checked (some e.record_hash) events in
      if link_is_broken previous_hash e
      then record {
        valid = false;
        events_checked = checked;
        first_invalid_event_id = some e.event_id;
      }
      else rest

  unfoldable pub verify_integrity : Db → IntegrityResult
  unfolding verify_from
  verify_integrity db =
      let events = Events.all_chain_events db in verify_from (length events) none events
