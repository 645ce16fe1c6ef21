-- ===== src/Seed/Activated.antt =====
-- The end of the seeding: the manifest is activated if it is a draft.
use tool_permission_enforcer.Base.{
  ℕ, String, Bool, true, false, Option, none, some, List, ◌==◌, ◌≡◌, ◌∙◌, inl, inr, refl, arith,
  string_eq, first_where, Bool-cases,
}
use tool_permission_enforcer.Base.Outcome.{ok}
use tool_permission_enforcer.Domain.Enums.{manifest_is_draft}
use tool_permission_enforcer.Domain.Models.{PermissionManifest}
use tool_permission_enforcer.Store.{Db}
use tool_permission_enforcer.Store.Found.{first_where-map, first_where-others}
use tool_permission_enforcer.Store.Manifests
use tool_permission_enforcer.Store.Manifests.{write}
use tool_permission_enforcer.Store.Manifests.Activation.{
  activated, superseded, rows_before, activate_draft-rows,
}
use tool_permission_enforcer.Seed.{activate_if_draft}

abbrev has_id : String → PermissionManifest → Bool
has_id id m = m.manifest_id == id

-- Superseding another manifest does not touch the row of the target.
rows_before-found :
    (target : PermissionManifest) (current : Option PermissionManifest)
    (rows : List PermissionManifest)
    → first_where (has_id target.manifest_id) (rows_before current target rows)
      ≡ first_where (has_id target.manifest_id) rows
rows_before-found target none rows = refl
rows_before-found target (some current) rows =
    elim (Bool-cases (current.manifest_id == target.manifest_id)) [
      | inl same ↦ rw same refl
      | inr other ↦ rw other (
          first_where-others (has_id target.manifest_id) (has_id current.manifest_id)
            (superseded current) rows (λ y e. ground arith) other)
    ]

-- What the activation of a draft that was found leaves.
activate_draft-found :
    (target : PermissionManifest) (by : String) (now : ℕ) (db : Db)
    → Manifests.get target.manifest_id db ≡ some target
    → Manifests.get target.manifest_id (Manifests.activate_draft target by now db).1
      ≡ some (activated target by now)
unfolding Manifests.get
activate_draft-found target by now db found =
    let current = Manifests.get_active target.agent_id db in
    rw (activate_draft-rows target by now db current refl) (
      first_where-map (has_id target.manifest_id) target (activated target by now)
        (rows_before current target db.manifests)
        (rows_before-found target current db.manifests ∙ found) (ground arith))

-- Activating a draft writes no other table.
activate_draft-frame :
    (target : PermissionManifest) (by : String) (now : ℕ) (db : Db)
    → (Manifests.activate_draft target by now db ≡ (
      ok (activated target by now),
      record db { manifests = (Manifests.activate_draft target by now db).1.manifests },
    ))
unfolding Manifests.activate_draft Manifests.supersede
activate_draft-frame target by now db = ground arith

activate-draft :
    (target m : PermissionManifest) (by : String) (now : ℕ) (db db' : Db)
    → Manifests.get target.manifest_id db ≡ some target
    → manifest_is_draft target.status ≡ true
    → Manifests.activate target.manifest_id by now db ≡ (ok m, db')
    → Manifests.activate_draft target by now db ≡ (ok m, db')
unfolding Manifests.activate Manifests.activate_found
activate-draft target m by now db db' found draft h = ground arith

-- The manifest that is answered is the row of its identifier, and no draft.
pub activate_if_draft-found :
    (target m : PermissionManifest) (now : ℕ) (db db' : Db)
    → Manifests.get target.manifest_id db ≡ some target
    → activate_if_draft target now db ≡ (ok m, db')
    → (Manifests.get target.manifest_id db' ≡ some m)
      × (m.checksum ≡ target.checksum)
      × (m.manifest_id ≡ target.manifest_id)
      × (manifest_is_draft m.status ≡ false)
      × ((rows : List PermissionManifest) × (db' ≡ record db { manifests = rows }))
unfolding activate_if_draft
activate_if_draft-found target m now db db' found h =
    elim (Bool-cases (manifest_is_draft target.status)) [
      | inl draft ↦
          let ran = activate-draft target m "phase-1-seed" now db db' found draft (rw draft at h) in
          let frame = activate_draft-frame target "phase-1-seed" now db in
          let kept = activate_draft-found target "phase-1-seed" now db found in
          let it : m ≡ activated target "phase-1-seed" now = ground (arith, ran, frame) in
          let end_is : (Manifests.activate_draft target "phase-1-seed" now db).1 ≡ db' =
            ground (arith, ran) in
          (
            rw it (rw end_is at kept),
            ground (arith, it),
            ground (arith, it),
            ground (arith, it),
            (
              (Manifests.activate_draft target "phase-1-seed" now db).1.manifests,
              ground (arith, ran, frame),
            ),
          )
      | inr other ↦
          let same : db' ≡ db = ground arith in
          let it : m ≡ target = ground arith in
          rw (same, it) (found, refl, refl, other, (db.manifests, refl))
    ]
