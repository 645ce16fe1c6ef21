-- ===== src/Seed.antt =====
-- `seed_phase_1` of services/permission_proxy/persistence/seed.py. `digest` is `manifest_checksum`.
pub mod Data
pub mod Stages
pub mod Activated
pub mod Unchanged
pub mod Twice
use tool_permission_enforcer.Base.{
  ℕ, String, not, Option, none, some, List, [], ◌∷◌, ◌==◌, string_eq, if◌then◌else◌,
}
use tool_permission_enforcer.Base.Json.{Json}
use tool_permission_enforcer.Base.Outcome.{◌>>=◌, ◌>>◌, pure, raise_if, gets}
use tool_permission_enforcer.Domain.Enums.{
  AgentStatus, ToolStatus, ManifestStatus, manifest_is_draft,
}
use tool_permission_enforcer.Domain.Errors.{seed_data_conflict}
use tool_permission_enforcer.Domain.Models.{
  Agent, ToolDefinition, PermissionManifest, CrmCustomer, aware,
}
use tool_permission_enforcer.Store.{Db, Action, transaction}
use tool_permission_enforcer.Store.Agents
use tool_permission_enforcer.Store.Tools
use tool_permission_enforcer.Store.Manifests
use tool_permission_enforcer.Store.Customers
use tool_permission_enforcer.Seed.Data.{
  seed_agent_id, seed_tool_id, seed_manifest_id, read_only_manifest, crm_request_schema,
  crm_response_schema, seed_customers,
}

pub record SeedSummary : Type 0 where
  pub agents : ℕ
  pub tools : ℕ
  pub manifests : ℕ
  pub customers : ℕ
  pub active_manifest_id : String

-- `_assert_equal`
abbrev pub assert_equal : String → String → Action (Unit {0})
assert_equal actual expected = raise_if (not (actual == expected)) seed_data_conflict

abbrev pub support_agent : Agent
support_agent = record {
  agent_id = seed_agent_id;
  oidc_subject = "dev:agent_support_001";
  name = "Read-only Support Agent";
  owning_team = "Customer Support Engineering";
  status = AgentStatus.active;
}

abbrev pub crm_tool : ToolDefinition
crm_tool = record {
  tool_id = seed_tool_id;
  name = "crm";
  adapter_type = "http_crm_v1";
  private_base_url = "http://sample-crm:8001";
  allowed_operations = "read_customer" ∷ "write_customer" ∷ "delete_customer" ∷ [];
  request_schema = crm_request_schema;
  response_schema = crm_response_schema;
  status = ToolStatus.active;
}

-- `datetime(2026, 1, 1, tzinfo=UTC)` in microseconds
abbrev pub draft_manifest : String → PermissionManifest
draft_manifest checksum = record {
  manifest_id = seed_manifest_id;
  agent_id = seed_agent_id;
  version = 1;
  status = ManifestStatus.draft;
  document = read_only_manifest;
  checksum = checksum;
  effective_from = aware 1767225600000000;
  expires_at = none;
  created_by = "phase-1-seed";
  approved_by = none;
  change_reason = "Initial read-only support-agent manifest";
  activated_at = none;
}

pub seed_agent : Option Agent → Action (Unit {0})
seed_agent none = do Agents.add support_agent; pure tt
seed_agent (some agent) = assert_equal agent.oidc_subject "dev:agent_support_001"

pub seed_tool : Option ToolDefinition → Action (Unit {0})
seed_tool none = do Tools.add crm_tool; pure tt
seed_tool (some tool) = assert_equal tool.name "crm"

pub seed_manifest : String → Option PermissionManifest → Action PermissionManifest
seed_manifest checksum none = Manifests.add (draft_manifest checksum)
seed_manifest checksum (some manifest) = do assert_equal manifest.checksum checksum; pure manifest

pub seed_customer : CrmCustomer → Option CrmCustomer → Action (Unit {0})
seed_customer data_ none = do Customers.add data_; pure tt
seed_customer data_ (some customer) = assert_equal customer.name data_.name

-- The loop over `SEED_CUSTOMERS`.
pub add_customers : List CrmCustomer → Action (Unit {0})
unfolding seed_customer
add_customers [] = pure tt
add_customers (data_ ∷ rest) = do
  found ← gets (Customers.get data_.customer_id)
  seed_customer data_ found
  add_customers rest

pub activate_if_draft : PermissionManifest → ℕ → Action PermissionManifest
activate_if_draft manifest now =
    if manifest_is_draft manifest.status
    then Manifests.activate manifest.manifest_id "phase-1-seed" now
    else pure manifest

abbrev pub summary_of : PermissionManifest → Db → SeedSummary
summary_of active db = record {
  agents = Agents.count db;
  tools = Tools.count db;
  manifests = Manifests.count db;
  customers = Customers.count db;
  active_manifest_id = active.manifest_id;
}

unfoldable pub seed_phase_1 : (Json → String) → ℕ → Action SeedSummary
unfolding seed_agent seed_tool seed_manifest add_customers activate_if_draft
seed_phase_1 digest now = transaction (do
  agent ← gets (Agents.get seed_agent_id)
  seed_agent agent
  tool ← gets (Tools.get seed_tool_id)
  seed_tool tool
  found ← gets (Manifests.get seed_manifest_id)
  manifest ← seed_manifest (digest read_only_manifest) found
  add_customers seed_customers
  active ← activate_if_draft manifest now
  gets (summary_of active))
