-- ===== src/Store.antt =====
-- The database: its tables, and the transaction of services/common/database.py. The repositories
-- of services/permission_proxy/persistence/repositories.py and of
-- services/sample_crm/persistence/repositories.py are the children, a module for each table.
-- `add` and `flush` fail on the constraints that the models declare: primary keys, unique columns
-- and indexes, foreign keys and check constraints.
pub mod Found
pub mod Agents
pub mod Tools
pub mod Manifests
pub mod Sessions
pub mod Events
pub mod Customers
use tool_permission_enforcer.Base.{List, []}
use tool_permission_enforcer.Base.Outcome.{Result, ok, err, Exec}
use tool_permission_enforcer.Domain.Errors.{Error}
use tool_permission_enforcer.Domain.Models.{
  Agent, ToolDefinition, PermissionManifest, AgentSession, ToolCallAuditEvent, CrmCustomer,
}

pub record Db : Type 0 where
  pub agents : List Agent
  pub tools : List ToolDefinition
  pub manifests : List PermissionManifest
  pub sessions : List AgentSession
  pub events : List ToolCallAuditEvent
  pub customers : List CrmCustomer

abbrev pub empty : Db
empty = record {
  agents = [];
  tools = [];
  manifests = [];
  sessions = [];
  events = [];
  customers = [];
}

-- Code that reads and writes the database, and may raise.
abbrev pub Action : Type 0 → Type 0
Action A = Exec Db Error A

-- `with database.session()`: commit at the end, or roll back and raise again.
abbrev pub transaction : {A : Type 0} → Action A → Action A
transaction m db = let (r, db') = m db in elim r [ ok a ↦ (ok a, db') | err e ↦ (err e, db) ]
