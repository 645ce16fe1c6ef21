-- ===== src/Seed/Unchanged.antt =====
-- Seeding leaves a seeded database as it is.
use tool_permission_enforcer.Base.{
  ℕ, String, false, List, [], ◌∷◌, ◌≡◌, refl, arith, string_eq, All,
}
use tool_permission_enforcer.Base.Json.{Json}
use tool_permission_enforcer.Base.Outcome.{ok}
use tool_permission_enforcer.Domain.Enums.{manifest_is_draft}
use tool_permission_enforcer.Domain.Models.{PermissionManifest, CrmCustomer}
use tool_permission_enforcer.Store.{Db}
use tool_permission_enforcer.Store.Agents
use tool_permission_enforcer.Store.Tools
use tool_permission_enforcer.Store.Manifests
use tool_permission_enforcer.Seed.Data.{
  seed_agent_id, seed_tool_id, seed_manifest_id, read_only_manifest, seed_customers,
}
use tool_permission_enforcer.Seed.{
  seed_agent, seed_tool, seed_manifest, seed_customer, add_customers, activate_if_draft, summary_of,
  seed_phase_1,
}
use tool_permission_enforcer.Seed.Stages.{HasAgent, HasTool, HasManifest, HasCustomer}

-- What a database holds after it was seeded.
pub record IsSeeded (checksum : String) (m : PermissionManifest) (db : Db) : Type 0 where
  pub agent : HasAgent db
  pub tool : HasTool db
  pub manifest : HasManifest checksum m db
  pub final : manifest_is_draft m.status ≡ false
  pub customers : All (HasCustomer db) seed_customers

add_customers-again :
    (cs : List CrmCustomer) (db : Db) → All (HasCustomer db) cs → add_customers cs db ≡ (ok tt, db)
unfolding add_customers seed_customer
add_customers-again [] db h = refl
add_customers-again (data_ ∷ cs) db ((c, found, name), rest) =
    rw (found, name) (add_customers-again cs db rest)

seed_agent-again :
    (db : Db) → HasAgent db → seed_agent (Agents.get seed_agent_id db) db ≡ (ok tt, db)
unfolding seed_agent
seed_agent-again db (a, found, subject) = rw (found, subject) refl

seed_tool-again : (db : Db) → HasTool db → seed_tool (Tools.get seed_tool_id db) db ≡ (ok tt, db)
unfolding seed_tool
seed_tool-again db (t, found, name) = rw (found, name) refl

seed_manifest-again :
    (checksum : String) (m : PermissionManifest) (db : Db)
    → HasManifest checksum m db
    → seed_manifest checksum (Manifests.get seed_manifest_id db) db ≡ (ok m, db)
unfolding seed_manifest
seed_manifest-again checksum m db (found, same) = rw (found, same) refl

activate_if_draft-again :
    (m : PermissionManifest) (now : ℕ) (db : Db)
    → manifest_is_draft m.status ≡ false
    → activate_if_draft m now db ≡ (ok m, db)
unfolding activate_if_draft
activate_if_draft-again m now db final = rw final refl

-- A seeded database is left as it is.
pub IsSeeded-unchanged :
    (digest : Json → String) (now : ℕ) (m : PermissionManifest) (db : Db)
    → IsSeeded (digest read_only_manifest) m db
    → seed_phase_1 digest now db ≡ (ok (summary_of m db), db)
unfolding seed_phase_1
IsSeeded-unchanged digest now m db h = ground (
  arith,
  seed_agent-again db h.agent,
  seed_tool-again db h.tool,
  seed_manifest-again (digest read_only_manifest) m db h.manifest,
  add_customers-again seed_customers db h.customers,
  activate_if_draft-again m now db h.final,
)
