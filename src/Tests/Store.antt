-- ===== src/Tests/Store.antt =====
-- The properties of the manifests.
use tool_permission_enforcer.Base.{String, [], ◌∷◌, false, ◌≡◌, ◌≢◌, ◌==◌, refl, arith, string_eq}
use tool_permission_enforcer.Domain.Enums.{ManifestStatus}
use tool_permission_enforcer.Domain.Models.{PermissionManifest}
use tool_permission_enforcer.Store.{Db}
use tool_permission_enforcer.Store.Manifests.{
  get, get_active, activate, activate_found, activate_draft, supersede,
}
use tool_permission_enforcer.Store.Agents
use tool_permission_enforcer.Store.Manifests.Activation.{IsSingle, activate-IsSingle}
use tool_permission_enforcer.Tests.Fixture.{db, manifest}

-- A second version, not yet active.
abbrev draft : PermissionManifest
draft = record manifest {
  manifest_id = "support-agent-v2";
  version = 2;
  status = ManifestStatus.draft;
}

abbrev two_manifests : Db
two_manifests = record db { manifests = manifest ∷ draft ∷ [] }

-- The draft supersedes the active manifest.
active_is_replaced :
    get_active "agent_support_001" ((activate "support-agent-v2" "admin" 5 two_manifests).1)
    ≡ get "support-agent-v2" ((activate "support-agent-v2" "admin" 5 two_manifests).1)
unfolding string_eq get get_active activate activate_found activate_draft supersede Agents.get
active_is_replaced = refl

differ_by_test : (s t : String) → (s == t) ≡ false → s ≢ t
differ_by_test s t h = ground arith

identifiers_differ : manifest.manifest_id ≢ draft.manifest_id
unfolding string_eq
identifiers_differ = differ_by_test manifest.manifest_id draft.manifest_id refl

two_manifests-IsSingle : IsSingle two_manifests.manifests
two_manifests-IsSingle = record {
  keys = λ id. ground (arith, identifiers_differ);
  actives = λ a. ground arith;
}

activate-IsSingle_example :
    IsSingle (activate "support-agent-v2" "admin" 5 two_manifests).1.manifests
activate-IsSingle_example =
    activate-IsSingle "support-agent-v2" "admin" 5 two_manifests two_manifests-IsSingle
