-- ===== src/Store/Manifests/Activation.antt =====
-- `activate` keeps at most one active manifest for an agent, the index
-- `uq_permission_manifests_active_agent`.
use tool_permission_enforcer.Base.{
  ℕ, ◌+◌, ◌≤◌, suc, String, Bool, not, ◌&&◌, Option, none, some, List, [], ◌∷◌, ◌≡◌, ◌⊎◌, sym, refl,
  inl, inr, arith, string_eq, ◌==◌, first_where, if◌then◌else◌, Option-cases, Bool-cases,
}
use tool_permission_enforcer.Domain.Enums.{ManifestStatus}
use tool_permission_enforcer.Domain.Models.{PermissionManifest, aware}
use tool_permission_enforcer.Store.{Db}
use tool_permission_enforcer.Store.Manifests.{
  get, get_active, is_active_for, write, supersede, activate_draft, activate_found, activate,
}

abbrev count_where : (PermissionManifest → Bool) → List PermissionManifest → ℕ
count_where p [] = 0
count_where p (m ∷ rows) = let rest = count_where p rows in if p m then suc rest else rest

abbrev has_id : String → PermissionManifest → Bool
has_id id m = m.manifest_id == id

-- Every identifier stands in one row at most, and every agent has one active manifest at most.
pub record IsSingle (rows : List PermissionManifest) : Type 0 where
  pub keys : (id : String) → count_where (has_id id) rows ≤ 1
  pub actives : (agent_id : String) → count_where (is_active_for agent_id) rows ≤ 1

abbrev without : (PermissionManifest → Bool) → String → PermissionManifest → Bool
without p id m = p m && not (has_id id m)

-- A write changes the rows of the identifier, and no others.
count_where-write :
    (p : PermissionManifest → Bool) (id : String) (new : PermissionManifest)
    (rows : List PermissionManifest)
    → count_where p (write id new rows)
      ≡ count_where (without p id) rows + (if p new then count_where (has_id id) rows else 0)
count_where-write p id new [] = ground arith
count_where-write p id new (m ∷ rows) = ground (arith, count_where-write p id new rows)

count_where-without :
    (p : PermissionManifest → Bool) (id : String) (rows : List PermissionManifest)
    → count_where (without p id) rows ≤ count_where p rows
count_where-without p id [] = ground arith
count_where-without p id (m ∷ rows) = ground (arith, count_where-without p id rows)

-- Without the row that was found there is one less.
count_where-found :
    (p : PermissionManifest → Bool) (c : PermissionManifest) (rows : List PermissionManifest)
    → first_where p rows ≡ some c
    → suc (count_where (without p c.manifest_id) rows) ≤ count_where p rows
count_where-found p c [] h = absurd (ground arith)
count_where-found p c (m ∷ rows) h =
    ground (arith, count_where-found p c rows, count_where-without p c.manifest_id rows)

count_where-missing :
    (p : PermissionManifest → Bool) (rows : List PermissionManifest)
    → first_where p rows ≡ none
    → count_where p rows ≡ 0
count_where-missing p [] h = refl
count_where-missing p (m ∷ rows) h = ground (arith, count_where-missing p rows)

has_id-write :
    (id : String) (new : PermissionManifest) (rows : List PermissionManifest)
    → count_where (has_id id) (write new.manifest_id new rows) ≡ count_where (has_id id) rows
has_id-write id new [] = refl
has_id-write id new (m ∷ rows) = ground (arith, has_id-write id new rows)

abbrev pub superseded : PermissionManifest → PermissionManifest
superseded m = record m { status = ManifestStatus.superseded }

superseded_actives :
    (agent_id : String) (current : PermissionManifest) (rows : List PermissionManifest)
    → count_where (is_active_for agent_id) (write current.manifest_id (superseded current) rows)
      ≡ count_where (without (is_active_for agent_id) current.manifest_id) rows
superseded_actives agent_id current rows = ground (
  arith,
  count_where-write (is_active_for agent_id) current.manifest_id (superseded current) rows,
)

superseded-IsSingle :
    (current : PermissionManifest) (rows : List PermissionManifest)
    → IsSingle rows
    → IsSingle (write current.manifest_id (superseded current) rows)
superseded-IsSingle current rows single = record {
  keys = λ id. rw (has_id-write id (superseded current) rows) (single.keys id);
  actives = λ a. ground (
    arith,
    superseded_actives a current rows,
    count_where-without (is_active_for a) current.manifest_id rows,
    single.actives a,
  );
}

-- Activating is safe where the agent has no active manifest but the target.
activated-IsSingle :
    (new : PermissionManifest) (rows : List PermissionManifest)
    → IsSingle rows
    → count_where (without (is_active_for new.agent_id) new.manifest_id) rows ≡ 0
    → IsSingle (write new.manifest_id new rows)
activated-IsSingle new rows single free = record {
  keys = λ id. rw (has_id-write id new rows) (single.keys id);
  actives = λ a. elim (string_eq.dec new.agent_id a) [
    | yes e ↦ rw (sym e) (
        ground (
          arith,
          count_where-write (is_active_for new.agent_id) new.manifest_id new rows,
          single.keys new.manifest_id,
        ))
    | no n ↦ ground (
      arith,
      count_where-write (is_active_for a) new.manifest_id new rows,
      count_where-without (is_active_for a) new.manifest_id rows,
      single.actives a,
    )
  ];
}

abbrev pub activated : PermissionManifest → String → ℕ → PermissionManifest
activated target approved_by now = record target {
  status = ManifestStatus.active;
  approved_by = some approved_by;
  activated_at = some (aware now);
}

-- The rows in which the target is activated.
abbrev pub rows_before :
    Option PermissionManifest
    → PermissionManifest
    → List PermissionManifest
    → List PermissionManifest
rows_before none target rows = rows
rows_before (some current) target rows =
    if current.manifest_id == target.manifest_id
    then rows
    else write current.manifest_id (superseded current) rows

pub activate_draft-rows :
    (target : PermissionManifest) (approved_by : String) (now : ℕ) (db : Db)
    (current : Option PermissionManifest)
    → get_active target.agent_id db ≡ current
    → (activate_draft target approved_by now db).1.manifests
      ≡ write target.manifest_id
          (activated target approved_by now)
          (rows_before current target db.manifests)
unfolding activate_draft supersede
activate_draft-rows target approved_by now db none found = ground arith
activate_draft-rows target approved_by now db (some current) found = ground arith

rows_before-IsSingle :
    (target : PermissionManifest) (rows : List PermissionManifest)
    (current : Option PermissionManifest)
    → IsSingle rows
    → first_where (is_active_for target.agent_id) rows ≡ current
    → IsSingle (rows_before current target rows)
      × (count_where
            (without (is_active_for target.agent_id) target.manifest_id)
            (rows_before current target rows)
          ≡ 0)
rows_before-IsSingle target rows none single found = (
  single,
  ground (
    arith,
    count_where-missing (is_active_for target.agent_id) rows found,
    count_where-without (is_active_for target.agent_id) target.manifest_id rows,
  ),
)
rows_before-IsSingle target rows (some current) single found =
    elim (Bool-cases (current.manifest_id == target.manifest_id)) [
      | inl same ↦ rw same (
        single,
        ground (
          arith,
          count_where-found (is_active_for target.agent_id) current rows found,
          single.actives target.agent_id,
        ),
      )
      | inr other ↦ rw other (
        superseded-IsSingle current rows single,
        ground (
          arith,
          superseded_actives target.agent_id current rows,
          count_where-found (is_active_for target.agent_id) current rows found,
          count_where-without (is_active_for target.agent_id) target.manifest_id
              (write current.manifest_id (superseded current) rows),
          single.actives target.agent_id,
        ),
      )
    ]

activate_draft-IsSingle :
    (target : PermissionManifest) (approved_by : String) (now : ℕ) (db : Db)
    → IsSingle db.manifests
    → IsSingle (activate_draft target approved_by now db).1.manifests
activate_draft-IsSingle target approved_by now db single =
    let current = get_active target.agent_id db in
    let (kept, free) =
      rows_before-IsSingle target db.manifests current single (unfold get_active in refl) in
    rw (activate_draft-rows target approved_by now db current refl) (
      activated-IsSingle (activated target approved_by now)
        (rows_before current target db.manifests) kept free)

-- `activate` runs `activate_draft`, or changes nothing.
activate-cases :
    (manifest_id approved_by : String) (now : ℕ) (db : Db) (target : PermissionManifest)
    → get manifest_id db ≡ some target
    → ((activate manifest_id approved_by now db).1 ≡ db)
      ⊎ ((activate manifest_id approved_by now db).1 ≡ (activate_draft target approved_by now db).1)
unfolding activate activate_found
activate-cases manifest_id approved_by now db target found = ground arith

activate-missing :
    (manifest_id approved_by : String) (now : ℕ) (db : Db)
    → get manifest_id db ≡ none
    → (activate manifest_id approved_by now db).1 ≡ db
unfolding activate
activate-missing manifest_id approved_by now db missing = ground arith

-- Activating a manifest, with whatever result, keeps the identifiers of manifests unique and every
-- agent with at most one active manifest.
pub activate-IsSingle :
    (manifest_id approved_by : String) (now : ℕ) (db : Db)
    → IsSingle db.manifests
    → IsSingle (activate manifest_id approved_by now db).1.manifests
activate-IsSingle manifest_id approved_by now db single = elim (Option-cases (get manifest_id db)) [
  | inl missing ↦ rw (activate-missing manifest_id approved_by now db missing) single
  | inr (target, found) ↦ elim (activate-cases manifest_id approved_by now db target found) [
    | inl same ↦ rw same single
    | inr draft ↦ rw draft (activate_draft-IsSingle target approved_by now db single)
  ]
]
