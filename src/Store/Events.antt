-- ===== src/Store/Events.antt =====
-- `AuditEventRepository`. Events are ordered by timestamp and then by their key, so that no two
-- are equal in the order and the descending order is the ascending one reversed.
pub mod Pages
use tool_permission_enforcer.Base.{
  ℕ, String, Bool, true, false, ◌&&◌, ◌||◌, Option, none, some, List, [], ◌∷◌, ◌++◌, ◌==◌, leb, ltb,
  string_eq, nat_eq, all_where, any, order_by, head_of, reverse, take, drop, length, if◌then◌else◌,
}
use tool_permission_enforcer.Base.Outcome.{◌>>=◌, ◌>>◌, pure, raise_if, gets, modify}
use tool_permission_enforcer.Base.Text.{leb_text}
use tool_permission_enforcer.Domain.Enums.{decision_value}
use tool_permission_enforcer.Domain.Errors.{integrity_error}
use tool_permission_enforcer.Domain.Models.{ToolCallAuditEvent, as_utc}
use tool_permission_enforcer.Store.{Db, Action}
use tool_permission_enforcer.Store.Agents
use tool_permission_enforcer.Store.Sessions
use tool_permission_enforcer.Store.Manifests

-- `order_by(timestamp, event_id)`
unfoldable pub not_after : ToolCallAuditEvent → ToolCallAuditEvent → Bool
not_after a b =
    if ltb (as_utc a.timestamp) (as_utc b.timestamp)
    then true
    else if ltb (as_utc b.timestamp) (as_utc a.timestamp)
    then false
    else leb_text a.event_id b.event_id

abbrev clashes : ToolCallAuditEvent → ToolCallAuditEvent → Bool
clashes new old =
    old.event_id == new.event_id
    || (old.request_id == new.request_id && old.sequence == new.sequence)

-- A reference that is absent, or to a row that is there.
abbrev dangles : {A : Type 0} → (String → Db → Option A) → Option String → Db → Bool
dangles find none db = false
dangles find (some key) db = elim (find key db) [ none ↦ true | some row ↦ false ]

abbrev pub references_dangle : ToolCallAuditEvent → Db → Bool
references_dangle e db =
    dangles Agents.get (some e.agent_id) db
    || dangles Sessions.get e.session_id db
    || dangles Manifests.get e.matched_manifest_id db

unfoldable pub add : ToolCallAuditEvent → Action ToolCallAuditEvent
add e = do
  raise_if (← gets (λ db. any (clashes e) db.events || references_dangle e db)) integrity_error
  modify (λ db. record db { events = db.events ++ (e ∷ []) })
  pure e

abbrev pub has_key : String → String → ToolCallAuditEvent → Bool
has_key agent_id idempotency_key e = e.agent_id == agent_id && e.idempotency_key == idempotency_key

unfoldable pub find_by_idempotency_key : String → String → Db → Option ToolCallAuditEvent
find_by_idempotency_key agent_id idempotency_key db =
    head_of (order_by not_after (all_where (has_key agent_id idempotency_key) db.events))

unfoldable pub all_chain_events : Db → List ToolCallAuditEvent
all_chain_events db = order_by not_after db.events

unfoldable pub last_chain_event : Db → Option ToolCallAuditEvent
unfolding all_chain_events
last_chain_event db = head_of (reverse (all_chain_events db))

-- The optional filters of `list_events`.
pub record Filters : Type 0 where
  pub agent_id : Option String
  pub session_id : Option String
  pub tool : Option String
  pub operation : Option String
  pub decision : Option String
  pub reason_code : Option String

abbrev equals : Option String → String → Bool
equals none column = true
equals (some value) column = column == value

-- A null column equals no value.
abbrev equals_nullable : Option String → Option String → Bool
equals_nullable none column = true
equals_nullable (some value) none = false
equals_nullable (some value) (some column) = column == value

unfoldable pub passes : Filters → ToolCallAuditEvent → Bool
passes f e =
    equals f.agent_id e.agent_id
    && equals_nullable f.session_id e.session_id
    && equals f.tool e.tool
    && equals f.operation e.operation
    && equals f.decision (decision_value e.decision)
    && equals f.reason_code e.reason_code

unfoldable pub list_events : Filters → ℕ → ℕ → Db → List ToolCallAuditEvent
list_events f limit offset db =
    take limit (drop offset (reverse (order_by not_after (all_where (passes f) db.events))))

abbrev by_sequence : ToolCallAuditEvent → ToolCallAuditEvent → Bool
by_sequence a b = leb a.sequence b.sequence

unfoldable pub list_by_request : String → Db → List ToolCallAuditEvent
list_by_request request_id db =
    order_by by_sequence (all_where (λ e. e.request_id == request_id) db.events)

abbrev pub count : Db → ℕ
count db = length db.events
