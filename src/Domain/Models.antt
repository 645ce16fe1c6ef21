-- ===== src/Domain/Models.antt =====
-- The rows of services/permission_proxy/domain/models.py and of
-- services/sample_crm/domain/models.py. Left out are the columns that only the database fills and
-- no code reads (`created_at` and `updated_at` of agents, tools and customers), the `relationship`
-- attributes, and the lengths of `String` columns.
use tool_permission_enforcer.Base.{ℕ, String, Option, List}
use tool_permission_enforcer.Base.Json.{Json, Fields}
use tool_permission_enforcer.Domain.Enums.{
  AgentStatus, ToolStatus, ManifestStatus, SessionStatus, AuditDecision, AuditExecutionStatus,
}

-- A `datetime` in microseconds: without a time zone, as SQLite returns it, or with one, and then
-- the instant that it stands for.
pub data Datetime : Type 0 where
  naive aware : ℕ → Datetime

-- `as_utc` of security/sessions.py, as the instant of its result: a naive value is read as UTC.
abbrev pub as_utc : Datetime → ℕ
as_utc (naive t) = t
as_utc (aware t) = t

pub record Agent : Type 0 where
  pub agent_id : String
  pub oidc_subject : String
  pub name : String
  pub owning_team : String
  pub status : AgentStatus

pub record ToolDefinition : Type 0 where
  pub tool_id : String
  pub name : String
  pub adapter_type : String
  pub private_base_url : String
  pub allowed_operations : List String
  pub request_schema : Json
  pub response_schema : Json
  pub status : ToolStatus

pub record PermissionManifest : Type 0 where
  pub manifest_id : String
  pub agent_id : String
  pub version : ℕ
  pub status : ManifestStatus
  pub document : Json
  pub checksum : String
  pub effective_from : Datetime
  pub expires_at : Option Datetime
  pub created_by : String
  pub approved_by : Option String
  pub change_reason : String
  pub activated_at : Option Datetime

pub record AgentSession : Type 0 where
  pub session_id : String
  pub token_jti : String
  pub agent_id : String
  pub user_id : String
  pub customer_id : String
  pub created_by_subject : String
  pub status : SessionStatus
  pub created_at : Datetime
  pub expires_at : Datetime
  pub revoked_at : Option Datetime

pub record ToolCallAuditEvent : Type 0 where
  pub event_id : String
  pub request_id : String
  pub idempotency_key : String
  pub sequence : ℕ
  pub timestamp : Datetime
  pub agent_id : String
  pub session_id : Option String
  pub user_id : Option String
  pub tool : String
  pub operation : String
  pub sanitized_parameters : Fields
  pub decision : AuditDecision
  pub reason_code : String
  pub matched_manifest_id : Option String
  pub policy_checksum : Option String
  pub execution_status : AuditExecutionStatus
  pub upstream_status_code : Option ℕ
  pub decision_latency_ms : Option ℕ
  pub total_latency_ms : Option ℕ
  pub trace_id : Option String
  pub previous_record_hash : Option String
  pub record_hash : String

pub record CrmCustomer : Type 0 where
  pub customer_id : String
  pub name : String
  pub email : String
  pub support_tier : String
  pub address : String
