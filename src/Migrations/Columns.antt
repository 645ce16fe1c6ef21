-- ===== src/Migrations/Columns.antt =====
-- The columns, the indexes and the enumerations that the revisions use.
use tool_permission_enforcer.Base.{String, true, false, none, some, [], ◌∷◌}
use tool_permission_enforcer.Migrations.{ColumnType, timestamp, enumeration, Column, Index}

abbrev pub required : String → ColumnType → Column
required name type = record { name = name; type = type; nullable = false; server_default = none }

abbrev pub optional : String → ColumnType → Column
optional name type = record { name = name; type = type; nullable = true; server_default = none }

abbrev pub column_default : String → ColumnType → String → Column
column_default name type default_ = record {
  name = name;
  type = type;
  nullable = false;
  server_default = some default_;
}

abbrev pub default_now : String → Column
default_now name = column_default name timestamp "CURRENT_TIMESTAMP"

abbrev pub plain : String → String → Index
plain name column = record {
  name = name;
  columns = column ∷ [];
  is_unique = false;
  condition = none;
}

abbrev pub agent_status : ColumnType
agent_status = enumeration "agent_status" ("active" ∷ "suspended" ∷ "decommissioned" ∷ [])

abbrev pub tool_status : ColumnType
tool_status = enumeration "tool_status" ("active" ∷ "disabled" ∷ [])

abbrev pub manifest_status : ColumnType
manifest_status = enumeration "manifest_status" ("draft" ∷ "active" ∷ "superseded" ∷ "revoked" ∷ [])

abbrev pub session_status : ColumnType
session_status = enumeration "session_status" ("active" ∷ "expired" ∷ "revoked" ∷ [])

abbrev pub audit_decision : ColumnType
audit_decision = enumeration "audit_decision" ("allow" ∷ "block" ∷ "error" ∷ [])

abbrev pub audit_execution_status : ColumnType
audit_execution_status =
    enumeration "audit_execution_status"
      ("not_forwarded" ∷ "authorized" ∷ "executed" ∷ "tool_failed" ∷ "timed_out" ∷ [])
