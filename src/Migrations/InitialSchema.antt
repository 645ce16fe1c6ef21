-- ===== src/Migrations/InitialSchema.antt =====
-- migrations/versions/20260730_0001_initial_schema.py. A server default is kept as its text; the
-- constraint of an enumeration is part of its type.
use tool_permission_enforcer.Base.{true, none, some, List, [], ◌∷◌, ◌++◌}
use tool_permission_enforcer.Migrations.{
  string, text, integer, json, timestamp, primary_key, unique, check, foreign_key, Operation,
  create_table, drop_table, create_index, drop_index,
}
use tool_permission_enforcer.Migrations.Columns.{
  required, optional, default_now, plain, agent_status, tool_status, manifest_status,
  session_status, audit_decision, audit_execution_status,
}

abbrev pub create_agents : List Operation
create_agents =
    create_table "agents"
      (required "agent_id" (string 64)
        ∷ required "oidc_subject" (string 255)
        ∷ required "name" (string 200)
        ∷ required "owning_team" (string 200)
        ∷ required "status" agent_status
        ∷ default_now "created_at"
        ∷ default_now "updated_at"
        ∷ [])
      (primary_key "agent_id" ∷ unique none ("oidc_subject" ∷ []) ∷ [])
    ∷ create_index "agents" (plain "ix_agents_status" "status")
    ∷ []

abbrev pub create_tool_definitions : List Operation
create_tool_definitions =
    create_table "tool_definitions"
      (required "tool_id" (string 64)
        ∷ required "name" (string 100)
        ∷ required "adapter_type" (string 100)
        ∷ required "private_base_url" (string 500)
        ∷ required "allowed_operations" json
        ∷ required "request_schema" json
        ∷ required "response_schema" json
        ∷ required "status" tool_status
        ∷ default_now "created_at"
        ∷ default_now "updated_at"
        ∷ [])
      (primary_key "tool_id" ∷ unique none ("name" ∷ []) ∷ [])
    ∷ create_index "tool_definitions" (plain "ix_tool_definitions_status" "status")
    ∷ []

abbrev pub create_permission_manifests : List Operation
create_permission_manifests =
    create_table "permission_manifests"
      (required "manifest_id" (string 100)
        ∷ required "agent_id" (string 64)
        ∷ required "version" integer
        ∷ required "status" manifest_status
        ∷ required "document" json
        ∷ required "checksum" (string 64)
        ∷ required "effective_from" timestamp
        ∷ optional "expires_at" timestamp
        ∷ required "created_by" (string 255)
        ∷ optional "approved_by" (string 255)
        ∷ required "change_reason" text
        ∷ default_now "created_at"
        ∷ optional "activated_at" timestamp
        ∷ [])
      (check "ck_manifest_valid_window" "expires_at IS NULL OR expires_at > effective_from"
        ∷ foreign_key "agent_id" "agents.agent_id" "CASCADE"
        ∷ primary_key "manifest_id"
        ∷ unique (some "uq_manifest_agent_version") ("agent_id" ∷ "version" ∷ [])
        ∷ [])
    ∷ create_index "permission_manifests" (plain "ix_permission_manifests_agent_id" "agent_id")
    ∷ create_index "permission_manifests" (plain "ix_permission_manifests_status" "status")
    ∷ create_index "permission_manifests" (record {
      name = "uq_permission_manifests_active_agent";
      columns = "agent_id" ∷ [];
      is_unique = true;
      condition = some "status = 'active'";
    })
    ∷ []

abbrev pub create_agent_sessions : List Operation
create_agent_sessions =
    create_table "agent_sessions"
      (required "session_id" (string 64)
        ∷ required "token_jti" (string 128)
        ∷ required "agent_id" (string 64)
        ∷ required "user_id" (string 128)
        ∷ required "customer_id" (string 64)
        ∷ required "status" session_status
        ∷ default_now "created_at"
        ∷ required "expires_at" timestamp
        ∷ optional "revoked_at" timestamp
        ∷ [])
      (check "ck_session_valid_window" "expires_at > created_at"
        ∷ foreign_key "agent_id" "agents.agent_id" "RESTRICT"
        ∷ primary_key "session_id"
        ∷ unique none ("token_jti" ∷ [])
        ∷ [])
    ∷ create_index "agent_sessions" (plain "ix_agent_sessions_agent_id" "agent_id")
    ∷ create_index "agent_sessions" (plain "ix_agent_sessions_customer_id" "customer_id")
    ∷ create_index "agent_sessions" (plain "ix_agent_sessions_status" "status")
    ∷ create_index "agent_sessions" (plain "ix_agent_sessions_user_id" "user_id")
    ∷ []

abbrev pub create_tool_call_audit_events : List Operation
create_tool_call_audit_events =
    create_table "tool_call_audit_events"
      (required "event_id" (string 64)
        ∷ required "request_id" (string 64)
        ∷ required "sequence" integer
        ∷ default_now "timestamp"
        ∷ required "agent_id" (string 64)
        ∷ optional "session_id" (string 64)
        ∷ optional "user_id" (string 128)
        ∷ required "tool" (string 100)
        ∷ required "operation" (string 100)
        ∷ required "sanitized_parameters" json
        ∷ required "decision" audit_decision
        ∷ required "reason_code" (string 100)
        ∷ optional "matched_manifest_id" (string 100)
        ∷ optional "policy_checksum" (string 64)
        ∷ required "execution_status" audit_execution_status
        ∷ optional "upstream_status_code" integer
        ∷ optional "decision_latency_ms" integer
        ∷ optional "total_latency_ms" integer
        ∷ optional "trace_id" (string 64)
        ∷ optional "previous_record_hash" (string 64)
        ∷ required "record_hash" (string 64)
        ∷ [])
      (foreign_key "agent_id" "agents.agent_id" "RESTRICT"
        ∷ foreign_key "matched_manifest_id" "permission_manifests.manifest_id" "RESTRICT"
        ∷ foreign_key "session_id" "agent_sessions.session_id" "RESTRICT"
        ∷ primary_key "event_id"
        ∷ unique (some "uq_audit_request_sequence") ("request_id" ∷ "sequence" ∷ [])
        ∷ [])
    ∷ create_index "tool_call_audit_events" (plain "ix_tool_call_audit_events_agent_id" "agent_id")
    ∷ create_index "tool_call_audit_events" (plain "ix_tool_call_audit_events_decision" "decision")
    ∷ create_index "tool_call_audit_events"
        (plain "ix_tool_call_audit_events_execution_status" "execution_status")
    ∷ create_index "tool_call_audit_events"
        (plain "ix_tool_call_audit_events_operation" "operation")
    ∷ create_index "tool_call_audit_events"
        (plain "ix_tool_call_audit_events_reason_code" "reason_code")
    ∷ create_index "tool_call_audit_events"
        (plain "ix_tool_call_audit_events_request_id" "request_id")
    ∷ create_index "tool_call_audit_events"
        (plain "ix_tool_call_audit_events_session_id" "session_id")
    ∷ create_index "tool_call_audit_events"
        (plain "ix_tool_call_audit_events_timestamp" "timestamp")
    ∷ create_index "tool_call_audit_events" (plain "ix_tool_call_audit_events_tool" "tool")
    ∷ create_index "tool_call_audit_events" (plain "ix_tool_call_audit_events_trace_id" "trace_id")
    ∷ create_index "tool_call_audit_events" (plain "ix_tool_call_audit_events_user_id" "user_id")
    ∷ []

abbrev pub create_crm_customers : List Operation
create_crm_customers =
    create_table "crm_customers"
      (required "customer_id" (string 64)
        ∷ required "name" (string 200)
        ∷ required "email" (string 320)
        ∷ required "support_tier" (string 50)
        ∷ required "address" text
        ∷ default_now "created_at"
        ∷ default_now "updated_at"
        ∷ [])
      (primary_key "customer_id" ∷ [])
    ∷ []

abbrev pub upgrade_initial_schema : List Operation
upgrade_initial_schema =
    create_agents ++ create_tool_definitions ++ create_permission_manifests ++ create_agent_sessions
    ++ create_tool_call_audit_events ++ create_crm_customers

abbrev pub downgrade_initial_schema : List Operation
downgrade_initial_schema =
    drop_table "crm_customers"
    ∷ drop_index "tool_call_audit_events" "ix_tool_call_audit_events_user_id"
    ∷ drop_index "tool_call_audit_events" "ix_tool_call_audit_events_trace_id"
    ∷ drop_index "tool_call_audit_events" "ix_tool_call_audit_events_tool"
    ∷ drop_index "tool_call_audit_events" "ix_tool_call_audit_events_timestamp"
    ∷ drop_index "tool_call_audit_events" "ix_tool_call_audit_events_session_id"
    ∷ drop_index "tool_call_audit_events" "ix_tool_call_audit_events_request_id"
    ∷ drop_index "tool_call_audit_events" "ix_tool_call_audit_events_reason_code"
    ∷ drop_index "tool_call_audit_events" "ix_tool_call_audit_events_operation"
    ∷ drop_index "tool_call_audit_events" "ix_tool_call_audit_events_execution_status"
    ∷ drop_index "tool_call_audit_events" "ix_tool_call_audit_events_decision"
    ∷ drop_index "tool_call_audit_events" "ix_tool_call_audit_events_agent_id"
    ∷ drop_table "tool_call_audit_events"
    ∷ drop_index "agent_sessions" "ix_agent_sessions_user_id"
    ∷ drop_index "agent_sessions" "ix_agent_sessions_status"
    ∷ drop_index "agent_sessions" "ix_agent_sessions_customer_id"
    ∷ drop_index "agent_sessions" "ix_agent_sessions_agent_id"
    ∷ drop_table "agent_sessions"
    ∷ drop_index "permission_manifests" "uq_permission_manifests_active_agent"
    ∷ drop_index "permission_manifests" "ix_permission_manifests_status"
    ∷ drop_index "permission_manifests" "ix_permission_manifests_agent_id"
    ∷ drop_table "permission_manifests"
    ∷ drop_index "tool_definitions" "ix_tool_definitions_status"
    ∷ drop_table "tool_definitions"
    ∷ drop_index "agents" "ix_agents_status"
    ∷ drop_table "agents"
    ∷ []
