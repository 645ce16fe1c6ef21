-- ===== src/Tests/Seeding.antt =====
-- Seeding an empty database, once and twice.
use tool_permission_enforcer.Base.{String, ◌≡◌, refl, string_eq}
use tool_permission_enforcer.Base.Outcome.{ok}
use tool_permission_enforcer.Store.{Db, empty}
use tool_permission_enforcer.Seed.{SeedSummary, seed_phase_1}
use tool_permission_enforcer.Seed.Twice.{seed_phase_1-twice}
use tool_permission_enforcer.Tests.Fixture.{digest}

abbrev summary : SeedSummary
summary = record {
  agents = 1;
  tools = 1;
  manifests = 1;
  customers = 3;
  active_manifest_id = "support-agent-readonly-v1";
}

abbrev seeded : Db
seeded = (seed_phase_1 digest 5 empty).1

seeds_empty : seed_phase_1 digest 5 empty ≡ (ok summary, seeded)
unfolding tool_permission_enforcer.Base.string_eq tool_permission_enforcer.Base.nat_eq
    native.Mathlib.Decide.ℕ_discrete tool_permission_enforcer.Seed.seed_phase_1
    tool_permission_enforcer.Store.Agents.get tool_permission_enforcer.Store.Agents.add
    tool_permission_enforcer.Store.Tools.get tool_permission_enforcer.Store.Tools.add
    tool_permission_enforcer.Store.Customers.get tool_permission_enforcer.Store.Customers.add
    tool_permission_enforcer.Store.Manifests.get tool_permission_enforcer.Store.Manifests.add
    tool_permission_enforcer.Store.Manifests.activate
    tool_permission_enforcer.Store.Manifests.activate_found
    tool_permission_enforcer.Store.Manifests.activate_draft
    tool_permission_enforcer.Store.Manifests.supersede
    tool_permission_enforcer.Store.Manifests.get_active
seeds_empty = refl

seed_phase_1-twice_example : seed_phase_1 digest 9 seeded ≡ (ok summary, seeded)
seed_phase_1-twice_example = seed_phase_1-twice digest 5 9 empty seeded summary seeds_empty
