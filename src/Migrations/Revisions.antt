-- ===== src/Migrations/Revisions.antt =====
-- migrations/versions: what each revision does to the schema, and what its downgrade does.
pub mod RoundTrip
use tool_permission_enforcer.Base.{List, [], ◌∷◌}
use tool_permission_enforcer.Migrations.{
  string, Operation, create_index, drop_index, add_column, drop_column,
}
use tool_permission_enforcer.Migrations.Columns.{column_default, plain}
use tool_permission_enforcer.Migrations.InitialSchema.{
  upgrade_initial_schema, downgrade_initial_schema,
}

abbrev pub upgrade_session_creator : List Operation
upgrade_session_creator =
    add_column "agent_sessions"
      (column_default "created_by_subject" (string 255) "migration:unknown")
    ∷ []

abbrev pub downgrade_session_creator : List Operation
downgrade_session_creator = drop_column "agent_sessions" "created_by_subject" ∷ []

abbrev pub upgrade_audit_idempotency : List Operation
upgrade_audit_idempotency =
    add_column "tool_call_audit_events"
      (column_default "idempotency_key" (string 128) "migration:unknown")
    ∷ create_index "tool_call_audit_events"
        (plain "ix_tool_call_audit_events_idempotency_key" "idempotency_key")
    ∷ []

abbrev pub downgrade_audit_idempotency : List Operation
downgrade_audit_idempotency =
    drop_index "tool_call_audit_events" "ix_tool_call_audit_events_idempotency_key"
    ∷ drop_column "tool_call_audit_events" "idempotency_key"
    ∷ []

pub data Revision : Type 0 where
  initial_schema session_creator audit_idempotency : Revision

unfoldable pub upgrade : Revision → List Operation
upgrade initial_schema = upgrade_initial_schema
upgrade session_creator = upgrade_session_creator
upgrade audit_idempotency = upgrade_audit_idempotency

unfoldable pub downgrade : Revision → List Operation
downgrade initial_schema = downgrade_initial_schema
downgrade session_creator = downgrade_session_creator
downgrade audit_idempotency = downgrade_audit_idempotency
