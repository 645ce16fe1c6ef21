-- ===== src/Tests/Schema.antt =====
-- The revisions on an empty database.
use tool_permission_enforcer.Base.{
  true, false, Option, none, some, List, [], ◌∷◌, ◌++◌, ◌≡◌, refl, string_eq,
}
use tool_permission_enforcer.Migrations.{Index, run}
use tool_permission_enforcer.Migrations.Tables.{Schema, apply, tables, tables-DropsAdditions}
use tool_permission_enforcer.Migrations.Revisions.{
  initial_schema, session_creator, audit_idempotency, upgrade, downgrade,
}
use tool_permission_enforcer.Migrations.Revisions.RoundTrip.{downgrade-upgrade}

abbrev schema_of : Option Schema → Schema
schema_of none = []
schema_of (some s) = s

abbrev first : Schema
first = schema_of (run tables (upgrade initial_schema) [])

first_runs : run tables (upgrade initial_schema) [] ≡ some first
unfolding run apply upgrade string_eq
first_runs = refl

downgrade-upgrade_example : run tables (downgrade initial_schema) first ≡ some []
downgrade-upgrade_example =
    downgrade-upgrade tables tables-DropsAdditions initial_schema [] first first_runs

abbrev head : Schema
head = schema_of (
    run tables (upgrade audit_idempotency) (schema_of (run tables (upgrade session_creator) first)))

abbrev unique_of : List Index → List Index
unique_of [] = []
unique_of (i ∷ is) = let rest = unique_of is in elim i.is_unique [ true ↦ i ∷ rest | false ↦ rest ]

abbrev unique_indexes : Schema → List Index
unique_indexes [] = []
unique_indexes (t ∷ ts) = unique_of t.indexes ++ unique_indexes ts

-- The one unique index is that of the active manifests: none is on the idempotency keys.
head_has_one_unique_index :
    unique_indexes head
    ≡ record {
      name = "uq_permission_manifests_active_agent";
      columns = "agent_id" ∷ [];
      is_unique = true;
      condition = some "status = 'active'";
    }
      ∷ []
unfolding run apply upgrade string_eq
head_has_one_unique_index = refl
