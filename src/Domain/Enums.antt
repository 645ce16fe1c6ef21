-- ===== src/Domain/Enums.antt =====
-- services/permission_proxy/domain/enums.py
use tool_permission_enforcer.Base.{String, Bool, true, false}

pub data AgentStatus : Type 0 where
  active suspended decommissioned : AgentStatus

pub data ToolStatus : Type 0 where
  active disabled : ToolStatus

pub data ManifestStatus : Type 0 where
  draft active superseded revoked : ManifestStatus

pub data SessionStatus : Type 0 where
  active expired revoked : SessionStatus

pub data AuditDecision : Type 0 where
  allow block error : AuditDecision

pub data AuditExecutionStatus : Type 0 where
  not_forwarded authorized executed tool_failed timed_out : AuditExecutionStatus

-- `status == ….ACTIVE`
abbrev pub agent_is_active : AgentStatus → Bool
agent_is_active AgentStatus.active = true
agent_is_active _ = false

abbrev pub tool_is_active : ToolStatus → Bool
tool_is_active ToolStatus.active = true
tool_is_active ToolStatus.disabled = false

abbrev pub manifest_is_active : ManifestStatus → Bool
manifest_is_active ManifestStatus.active = true
manifest_is_active _ = false

abbrev pub manifest_is_draft : ManifestStatus → Bool
manifest_is_draft ManifestStatus.draft = true
manifest_is_draft _ = false

abbrev pub session_is_active : SessionStatus → Bool
session_is_active SessionStatus.active = true
session_is_active _ = false

abbrev pub session_is_revoked : SessionStatus → Bool
session_is_revoked SessionStatus.revoked = true
session_is_revoked _ = false

-- `….value`
abbrev pub agent_status_value : AgentStatus → String
agent_status_value AgentStatus.active = "active"
agent_status_value AgentStatus.suspended = "suspended"
agent_status_value AgentStatus.decommissioned = "decommissioned"

abbrev pub session_status_value : SessionStatus → String
session_status_value SessionStatus.active = "active"
session_status_value SessionStatus.expired = "expired"
session_status_value SessionStatus.revoked = "revoked"

abbrev pub decision_value : AuditDecision → String
decision_value AuditDecision.allow = "allow"
decision_value AuditDecision.block = "block"
decision_value AuditDecision.error = "error"

abbrev pub execution_status_value : AuditExecutionStatus → String
execution_status_value not_forwarded = "not_forwarded"
execution_status_value authorized = "authorized"
execution_status_value executed = "executed"
execution_status_value tool_failed = "tool_failed"
execution_status_value timed_out = "timed_out"
