-- ===== src/Store/Manifests.antt =====
-- `ManifestRepository`
pub mod Activation
use tool_permission_enforcer.Base.{
  ℕ, String, Bool, true, false, not, ◌&&◌, ◌||◌, Option, none, some, List, [], ◌∷◌, ◌++◌, ◌==◌, map,
  string_eq, nat_eq, leb, first_where, any, length, if◌then◌else◌,
}
use tool_permission_enforcer.Base.Outcome.{◌>>=◌, ◌>>◌, pure, raise, raise_if, gets, modify}
use tool_permission_enforcer.Domain.Enums.{ManifestStatus, manifest_is_active, manifest_is_draft}
use tool_permission_enforcer.Domain.Errors.{
  integrity_error, entity_not_found, invalid_manifest_state,
}
use tool_permission_enforcer.Domain.Models.{PermissionManifest, aware, as_utc}
use tool_permission_enforcer.Store.{Db, Action}
use tool_permission_enforcer.Store.Agents

unfoldable pub get : String → Db → Option PermissionManifest
get manifest_id db = first_where (λ m. m.manifest_id == manifest_id) db.manifests

-- The rows that `get_active` selects, and that `uq_permission_manifests_active_agent` keeps single.
abbrev pub is_active_for : String → PermissionManifest → Bool
is_active_for agent_id m = m.agent_id == agent_id && manifest_is_active m.status

unfoldable pub get_active : String → Db → Option PermissionManifest
get_active agent_id db = first_where (is_active_for agent_id) db.manifests

abbrev window_is_valid : PermissionManifest → Bool
window_is_valid m = elim m.expires_at [
  | none ↦ true
  | some t ↦ not (leb (as_utc t) (as_utc m.effective_from))
]

abbrev clashes : PermissionManifest → PermissionManifest → Bool
clashes new old =
    old.manifest_id == new.manifest_id
    || (old.agent_id == new.agent_id && old.version == new.version)
    || (manifest_is_active new.status && is_active_for new.agent_id old)

unfoldable pub add : PermissionManifest → Action PermissionManifest
unfolding Agents.get
add m = do
  raise_if (not (window_is_valid m)) integrity_error
  raise_if (← gets (λ db. any (clashes m) db.manifests)) integrity_error
  agent ← gets (Agents.get m.agent_id)
  raise_if (elim agent [ none ↦ true | some a ↦ false ]) integrity_error
  modify (λ db. record db { manifests = db.manifests ++ (m ∷ []) })
  pure m

-- What a flush writes to the row of a changed object.
abbrev pub write : String → PermissionManifest → List PermissionManifest → List PermissionManifest
write manifest_id new = map (λ m. if m.manifest_id == manifest_id then new else m)

abbrev pub save : PermissionManifest → Action (Unit {0})
save m = modify (λ db. record db { manifests = write m.manifest_id m db.manifests })

-- `current` is superseded unless it is the target itself.
unfoldable pub supersede : Option PermissionManifest → PermissionManifest → Action (Unit {0})
supersede none target = pure tt
supersede (some current) target =
    if current.manifest_id == target.manifest_id
    then pure tt
    else save (record current { status = ManifestStatus.superseded })

unfoldable pub activate_draft : PermissionManifest → String → ℕ → Action PermissionManifest
unfolding supersede
activate_draft target approved_by now = do
  let activated : PermissionManifest = record target {
    status = ManifestStatus.active;
    approved_by = some approved_by;
    activated_at = some (aware now);
  }
  current ← gets (get_active target.agent_id)
  supersede current target
  save activated
  pure activated

unfoldable pub activate_found : PermissionManifest → String → ℕ → Action PermissionManifest
activate_found target approved_by now =
    if manifest_is_active target.status
    then pure target
    else if manifest_is_draft target.status
    then activate_draft target approved_by now
    else raise invalid_manifest_state

unfoldable pub activate : String → String → ℕ → Action PermissionManifest
activate manifest_id approved_by now db = elim (get manifest_id db) [
  | none ↦ (raise entity_not_found) db
  | some target ↦ elim (Agents.get target.agent_id db) [
    | none ↦ (raise entity_not_found) db
    | some agent ↦ activate_found target approved_by now db
  ]
]

abbrev pub count : Db → ℕ
count db = length db.manifests
