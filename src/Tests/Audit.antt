-- ===== src/Tests/Audit.antt =====
-- The properties of the audit log, for one or two events of the seeded agent.
use mathlib.Core.Option as Option
use tool_permission_enforcer.Base.{
  ℕ, String, true, false, Option, none, some, List, [], ◌∷◌, ◌≡◌, ◌≢◌, ◌↔◌, ◌⊎◌, refl, arith,
  string_eq, map, length, all, ◌+◌, ◌≤◌, ◌++◌, Bool, ◌&&◌, ◌==◌, ap,
}
use tool_permission_enforcer.Base.Lists.{number}
use tool_permission_enforcer.Base.Order.{is_ordered}
use tool_permission_enforcer.Base.Dict.{Dict, lookup}
use tool_permission_enforcer.Base.Json.{Json, Fields, str, obj, fields, end, entries, Json-discrete}
use tool_permission_enforcer.Domain.Enums.{AuditDecision, AuditExecutionStatus}
use tool_permission_enforcer.Domain.Models.{ToolCallAuditEvent}
use tool_permission_enforcer.Store.{Db}
use tool_permission_enforcer.Store.Events
use tool_permission_enforcer.Store.Events.Pages.{not_before, list_events-pages}
use tool_permission_enforcer.Audit.Sanitize.{sanitize_parameters, sanitize_hides_values}
use tool_permission_enforcer.Audit.Event.{AuditEventInput}
use tool_permission_enforcer.Audit.Service.{Stamp, record_event, verify_integrity}
use tool_permission_enforcer.Audit.Content.{IsCanonical}
use tool_permission_enforcer.Audit.Service.Chain.{
  IsChain, FirstBreak, verify_integrity-IsChain, verify_integrity-FirstBreak,
}
use tool_permission_enforcer.Audit.Service.Append.{record_event-verifies}
use tool_permission_enforcer.Audit.Service.Order.{record_event-misordered}
use tool_permission_enforcer.Audit.Service.Tamper.{
  latest_first, SameContents, Collision, verify_integrity-commits,
}
use tool_permission_enforcer.Seed.Data.{seed_agent_id}
use tool_permission_enforcer.Tests.Fixture.{digest, isoformat, db, parameters}

-- A refused call.
abbrev refused : String → AuditEventInput
refused request_id = record {
  request_id = request_id;
  idempotency_key = "key-0001";
  sequence = 0;
  agent_id = seed_agent_id;
  session_id = some "sess_1";
  user_id = some "user_1";
  tool = "crm";
  operation = "delete_customer";
  parameters = parameters;
  decision = AuditDecision.block;
  reason_code = "OPERATION_NOT_ALLOWED";
  execution_status = AuditExecutionStatus.not_forwarded;
  manifest_id = none;
  policy_checksum = none;
  upstream_status_code = none;
  decision_latency_ms = none;
  total_latency_ms = none;
  trace_id = none;
}

abbrev early : Stamp
early = record { hex = "1"; now = 500 }

abbrev late : Stamp
late = record { hex = "2"; now = 1000 }

abbrev one_event : Db
one_event = (record_event isoformat digest (refused "req_1") late db).1

one_event_verifies : (verify_integrity isoformat digest one_event).valid ≡ true
unfolding native.Mathlib.Decide.ℕ_discrete tool_permission_enforcer.Base.nat_eq
    tool_permission_enforcer.Base.option_eq tool_permission_enforcer.Base.Text.leb_text
    tool_permission_enforcer.Audit.Sanitize.sanitize_parameters
    tool_permission_enforcer.Audit.Event.event_hash tool_permission_enforcer.Audit.Event.payload
    tool_permission_enforcer.Audit.Event.pending_event
    tool_permission_enforcer.Audit.Service.has_idempotency_key
    tool_permission_enforcer.Audit.Service.new_event
    tool_permission_enforcer.Audit.Service.record_event tool_permission_enforcer.Store.Events.add
    tool_permission_enforcer.Store.Events.find_by_idempotency_key
    tool_permission_enforcer.Store.Events.all_chain_events
    tool_permission_enforcer.Store.Events.last_chain_event
    tool_permission_enforcer.Store.Events.not_after tool_permission_enforcer.Store.Agents.get
    tool_permission_enforcer.Store.Sessions.get tool_permission_enforcer.Store.Manifests.get
    tool_permission_enforcer.Base.string_eq tool_permission_enforcer.Audit.Service.verify_integrity
one_event_verifies = refl

verify_integrity-IsChain_example :
    ((verify_integrity isoformat digest one_event).valid ≡ true)
    ↔ IsChain isoformat digest none (Events.all_chain_events one_event)
verify_integrity-IsChain_example = verify_integrity-IsChain isoformat digest one_event

abbrev forge : ToolCallAuditEvent → ToolCallAuditEvent
forge e = record e { record_hash = "forged" }

-- The hash of the event is overwritten.
abbrev tampered : Db
tampered = record one_event { events = map forge one_event.events }

tampered_is_found : (verify_integrity isoformat digest tampered).valid ≡ false
unfolding native.Mathlib.Decide.ℕ_discrete tool_permission_enforcer.Base.nat_eq
    tool_permission_enforcer.Base.option_eq tool_permission_enforcer.Base.Text.leb_text
    tool_permission_enforcer.Audit.Sanitize.sanitize_parameters
    tool_permission_enforcer.Audit.Event.event_hash tool_permission_enforcer.Audit.Event.payload
    tool_permission_enforcer.Audit.Event.pending_event
    tool_permission_enforcer.Audit.Service.has_idempotency_key
    tool_permission_enforcer.Audit.Service.new_event
    tool_permission_enforcer.Audit.Service.record_event tool_permission_enforcer.Store.Events.add
    tool_permission_enforcer.Store.Events.find_by_idempotency_key
    tool_permission_enforcer.Store.Events.all_chain_events
    tool_permission_enforcer.Store.Events.last_chain_event
    tool_permission_enforcer.Store.Events.not_after tool_permission_enforcer.Store.Agents.get
    tool_permission_enforcer.Store.Sessions.get tool_permission_enforcer.Store.Manifests.get
    tool_permission_enforcer.Base.string_eq tool_permission_enforcer.Audit.Service.verify_integrity
tampered_is_found = refl

verify_integrity-FirstBreak_example :
    FirstBreak isoformat digest none
      (Events.all_chain_events tampered)
      (verify_integrity isoformat digest tampered).first_invalid_event_id
verify_integrity-FirstBreak_example =
    verify_integrity-FirstBreak isoformat digest tampered tampered_is_found

abbrev later : Stamp
later = record { hex = "3"; now = 2000 }

record_event-verifies_example :
    (verify_integrity isoformat digest
      (record_event isoformat digest (refused "req_2") later one_event).1).valid
    ≡ true
unfolding native.Mathlib.Decide.ℕ_discrete tool_permission_enforcer.Base.nat_eq
    tool_permission_enforcer.Base.option_eq tool_permission_enforcer.Base.Text.leb_text
    tool_permission_enforcer.Audit.Sanitize.sanitize_parameters
    tool_permission_enforcer.Audit.Event.event_hash tool_permission_enforcer.Audit.Event.payload
    tool_permission_enforcer.Audit.Event.pending_event
    tool_permission_enforcer.Audit.Service.has_idempotency_key
    tool_permission_enforcer.Audit.Service.new_event
    tool_permission_enforcer.Audit.Service.record_event tool_permission_enforcer.Store.Events.add
    tool_permission_enforcer.Store.Events.find_by_idempotency_key
    tool_permission_enforcer.Store.Events.all_chain_events
    tool_permission_enforcer.Store.Events.last_chain_event
    tool_permission_enforcer.Store.Events.not_after tool_permission_enforcer.Store.Agents.get
    tool_permission_enforcer.Store.Sessions.get tool_permission_enforcer.Store.Manifests.get
    tool_permission_enforcer.Base.string_eq tool_permission_enforcer.Audit.Service.verify_integrity
record_event-verifies_example =
    record_event-verifies isoformat digest (refused "req_2") later one_event one_event_verifies
      (refl, tt)

-- The clock went back between the two events.
record_event-misordered_example :
    (verify_integrity isoformat digest
      (record_event isoformat digest (refused "req_2") early one_event).1).valid
    ≡ false
unfolding native.Mathlib.Decide.ℕ_discrete tool_permission_enforcer.Base.nat_eq
    tool_permission_enforcer.Base.option_eq tool_permission_enforcer.Base.Text.leb_text
    tool_permission_enforcer.Audit.Sanitize.sanitize_parameters
    tool_permission_enforcer.Audit.Event.event_hash tool_permission_enforcer.Audit.Event.payload
    tool_permission_enforcer.Audit.Event.pending_event
    tool_permission_enforcer.Audit.Service.has_idempotency_key
    tool_permission_enforcer.Audit.Service.new_event
    tool_permission_enforcer.Audit.Service.record_event tool_permission_enforcer.Store.Events.add
    tool_permission_enforcer.Store.Events.find_by_idempotency_key
    tool_permission_enforcer.Store.Events.all_chain_events
    tool_permission_enforcer.Store.Events.last_chain_event
    tool_permission_enforcer.Store.Events.not_after tool_permission_enforcer.Store.Agents.get
    tool_permission_enforcer.Store.Sessions.get tool_permission_enforcer.Store.Manifests.get
    tool_permission_enforcer.Base.string_eq tool_permission_enforcer.Audit.Service.verify_integrity
record_event-misordered_example =
    record_event-misordered isoformat digest (refused "req_2") early one_event (λ h. ground arith)
      (refl, tt) refl

-- Two stores with one event, that differ in another table.
abbrev other : Db
other = record one_event { customers = [] }

abbrev fields_of : Json → Fields
fields_of (obj fs) = fs
fields_of _ = end

-- Texts that are the values themselves.
json-IsCanonical : IsCanonical (λ j. j)
json-IsCanonical = record {
  texts = λ s t h. cc;
  numbers = λ m n h. cc;
  text_not_null = λ s h. cc;
  number_not_null = λ n h. cc;
  members = λ fs gs d d' h k. ap (λ j. Option.map (λ v. v) (lookup k (entries (fields_of j)))) h;
}

verify_integrity-commits_example :
    SameContents (λ j. j) isoformat digest (latest_first one_event) (latest_first other)
    ⊎ Collision (λ j. j) isoformat digest (latest_first one_event) (latest_first other)
unfolding native.Mathlib.Decide.ℕ_discrete tool_permission_enforcer.Base.nat_eq
    tool_permission_enforcer.Base.option_eq tool_permission_enforcer.Base.Text.leb_text
    tool_permission_enforcer.Audit.Sanitize.sanitize_parameters
    tool_permission_enforcer.Audit.Event.event_hash tool_permission_enforcer.Audit.Event.payload
    tool_permission_enforcer.Audit.Event.pending_event
    tool_permission_enforcer.Audit.Service.has_idempotency_key
    tool_permission_enforcer.Audit.Service.new_event
    tool_permission_enforcer.Audit.Service.record_event tool_permission_enforcer.Store.Events.add
    tool_permission_enforcer.Store.Events.find_by_idempotency_key
    tool_permission_enforcer.Store.Events.all_chain_events
    tool_permission_enforcer.Store.Events.last_chain_event
    tool_permission_enforcer.Store.Events.not_after tool_permission_enforcer.Store.Agents.get
    tool_permission_enforcer.Store.Sessions.get tool_permission_enforcer.Store.Manifests.get
    tool_permission_enforcer.Base.string_eq tool_permission_enforcer.Audit.Service.verify_integrity
verify_integrity-commits_example =
    verify_integrity-commits (λ j. j) isoformat digest Json-discrete json-IsCanonical one_event
      other one_event_verifies one_event_verifies refl

abbrev update : String → Dict Json
update email =
    ("customer_id", str "customer_1001")
    ∷ ("changes", obj (fields (("email", str email) ∷ [])))
    ∷ []

sanitize_hides_values_example :
    sanitize_parameters (update "a@example.invalid")
    ≡ sanitize_parameters (update "b@example.invalid")
unfolding tool_permission_enforcer.Base.string_eq
sanitize_hides_values_example =
    sanitize_hides_values (update "a@example.invalid") (update "b@example.invalid") refl refl refl

abbrev two_events : Db
two_events = (record_event isoformat digest (refused "req_2") later one_event).1

abbrev of_agent : Events.Filters
of_agent = record {
  agent_id = some seed_agent_id;
  session_id = none;
  tool = none;
  operation = none;
  decision = none;
  reason_code = none;
}

abbrev is_first : ToolCallAuditEvent → Bool
is_first e = e.request_id == "req_1"

list_events-pages_example :
    (number is_first (Events.list_events of_agent (length two_events.events) 0 two_events)
      ≡ number (λ e. Events.passes of_agent e && is_first e) two_events.events)
    × (length (Events.list_events of_agent 1 0 two_events) ≤ 1)
    × (all (Events.passes of_agent) (Events.list_events of_agent 1 0 two_events) ≡ true)
    × (is_ordered not_before (Events.list_events of_agent 1 0 two_events) ≡ true)
    × (Events.list_events of_agent (1 + 1) 0 two_events
        ≡ Events.list_events of_agent 1 0 two_events
          ++ Events.list_events of_agent 1 (0 + 1) two_events)
list_events-pages_example = list_events-pages of_agent is_first 1 1 0 two_events
