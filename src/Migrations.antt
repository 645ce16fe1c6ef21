-- ===== src/Migrations.antt =====
-- The revisions of migrations/versions. Each is a list of operations; Alembic, which runs them on a
-- database, is a parameter: `apply` is what an operation makes of a schema, or none if the database
-- refuses it.
pub mod Columns
pub mod InitialSchema
pub mod Revisions
pub mod Undo
pub mod Tables
use tool_permission_enforcer.Base.{
  ℕ, String, Bool, true, false, Option, none, some, List, [], ◌∷◌, ◌++◌, ◌≡◌,
}

pub data ColumnType : Type 0 where
  string : ℕ → ColumnType
  text integer json timestamp : ColumnType
  enumeration : String → List String → ColumnType

pub record Column : Type 0 where
  pub name : String
  pub type : ColumnType
  pub nullable : Bool
  pub server_default : Option String

pub data Constraint : Type 0 where
  primary_key : String → Constraint
  unique : Option String → List String → Constraint
  check : String → String → Constraint
  foreign_key : String → String → String → Constraint

-- A partial index has a condition.
pub record Index : Type 0 where
  pub name : String
  pub columns : List String
  pub is_unique : Bool
  pub condition : Option String

pub data Operation : Type 0 where
  create_table : String → List Column → List Constraint → Operation
  drop_table : String → Operation
  create_index : String → Index → Operation
  drop_index : String → String → Operation
  add_column : String → Column → Operation
  drop_column : String → String → Operation

pub record Alembic : Type 1 where
  pub Schema : Type 0
  pub apply : Operation → Schema → Option Schema

abbrev pub is_addition : Operation → Bool
is_addition (create_table name columns constraints) = true
is_addition (create_index table i) = true
is_addition (add_column table c) = true
is_addition _ = false

-- The operation that takes an addition back.
abbrev pub undo : Operation → Operation
undo (create_table name columns constraints) = drop_table name
undo (create_index table i) = drop_index table i.name
undo (add_column table c) = drop_column table c.name
undo o = o

-- What was just created or added can be dropped, and the schema is as before.
abbrev pub DropsAdditions : Alembic → Type 0
DropsAdditions alembic =
    (o : Operation) (s s' : alembic.Schema)
    → is_addition o ≡ true
    → alembic.apply o s ≡ some s'
    → alembic.apply (undo o) s' ≡ some s

module _ (alembic : Alembic) where
  -- The operations of a revision, in one transaction.
  unfoldable pub run : List Operation → alembic.Schema → Option alembic.Schema
  run [] s = some s
  run (o ∷ os) s = elim (alembic.apply o s) [ none ↦ none | some t ↦ run os t ]
