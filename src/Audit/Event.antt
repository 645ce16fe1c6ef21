-- ===== src/Audit/Event.antt =====
-- `AuditEventInput`, the payload that is hashed, and `event_hash` of audit/service.py. `digest` is
-- SHA-256 of the canonical JSON text, and `isoformat` writes an instant in UTC.
use tool_permission_enforcer.Base.{ℕ, String, Option, none, some, [], ◌∷◌}
use tool_permission_enforcer.Base.Dict.{Dict}
use tool_permission_enforcer.Base.Json.{Json, null, int, str, obj, pos, fields}
use tool_permission_enforcer.Domain.Enums.{
  AuditDecision, AuditExecutionStatus, decision_value, execution_status_value,
}
use tool_permission_enforcer.Domain.Models.{ToolCallAuditEvent, aware, as_utc}
use tool_permission_enforcer.Audit.Sanitize.{sanitize_parameters}

pub record AuditEventInput : Type 0 where
  pub request_id : String
  pub idempotency_key : String
  pub sequence : ℕ
  pub agent_id : String
  pub session_id : Option String
  pub user_id : Option String
  pub tool : String
  pub operation : String
  pub parameters : Dict Json
  pub decision : AuditDecision
  pub reason_code : String
  pub execution_status : AuditExecutionStatus
  pub manifest_id : Option String
  pub policy_checksum : Option String
  pub upstream_status_code : Option ℕ
  pub decision_latency_ms : Option ℕ
  pub total_latency_ms : Option ℕ
  pub trace_id : Option String

abbrev pub opt_str : Option String → Json
opt_str none = null
opt_str (some s) = str s

abbrev pub opt_int : Option ℕ → Json
opt_int none = null
opt_int (some n) = int (pos n)

module _ (isoformat : ℕ → String) where
  unfoldable pub payload : ToolCallAuditEvent → Json
  payload e = obj (
      fields (
        ("event_id", str e.event_id)
        ∷ ("request_id", str e.request_id)
        ∷ ("idempotency_key", str e.idempotency_key)
        ∷ ("sequence", int (pos e.sequence))
        ∷ ("timestamp", str (isoformat (as_utc e.timestamp)))
        ∷ ("agent_id", str e.agent_id)
        ∷ ("session_id", opt_str e.session_id)
        ∷ ("user_id", opt_str e.user_id)
        ∷ ("tool", str e.tool)
        ∷ ("operation", str e.operation)
        ∷ ("sanitized_parameters", obj e.sanitized_parameters)
        ∷ ("decision", str (decision_value e.decision))
        ∷ ("reason_code", str e.reason_code)
        ∷ ("matched_manifest_id", opt_str e.matched_manifest_id)
        ∷ ("policy_checksum", opt_str e.policy_checksum)
        ∷ ("execution_status", str (execution_status_value e.execution_status))
        ∷ ("upstream_status_code", opt_int e.upstream_status_code)
        ∷ ("decision_latency_ms", opt_int e.decision_latency_ms)
        ∷ ("total_latency_ms", opt_int e.total_latency_ms)
        ∷ ("trace_id", opt_str e.trace_id)
        ∷ ("previous_record_hash", opt_str e.previous_record_hash)
        ∷ []))

  unfoldable pub event_hash : (Json → String) → ToolCallAuditEvent → String
  event_hash digest e = digest (payload e)

-- The event that `record` builds, before its hash is known.
unfoldable pub pending_event :
    AuditEventInput → String → ℕ → Option ToolCallAuditEvent → ToolCallAuditEvent
pending_event d event_id now previous = record {
  event_id = event_id;
  request_id = d.request_id;
  idempotency_key = d.idempotency_key;
  sequence = d.sequence;
  timestamp = aware now;
  agent_id = d.agent_id;
  session_id = d.session_id;
  user_id = d.user_id;
  tool = d.tool;
  operation = d.operation;
  sanitized_parameters = sanitize_parameters d.parameters;
  decision = d.decision;
  reason_code = d.reason_code;
  matched_manifest_id = d.manifest_id;
  policy_checksum = d.policy_checksum;
  execution_status = d.execution_status;
  upstream_status_code = d.upstream_status_code;
  decision_latency_ms = d.decision_latency_ms;
  total_latency_ms = d.total_latency_ms;
  trace_id = d.trace_id;
  previous_record_hash = elim previous [ none ↦ none | some p ↦ some p.record_hash ];
  record_hash = "pending";
}
