-- ===== src/Seed/Twice.antt =====
-- Seeding twice is seeding once.
use tool_permission_enforcer.Base.{
  ℕ, String, some, List, [], ◌∷◌, ◌==◌, ◌≡◌, subst, inl, inr, sym, arith, string_eq, All,
}
use tool_permission_enforcer.Base.Json.{Json}
use tool_permission_enforcer.Base.Outcome.{ok, bind_ok, Result-cases, ◌>>=◌, ◌>>◌, gets}
use tool_permission_enforcer.Domain.Models.{PermissionManifest, CrmCustomer}
use tool_permission_enforcer.Store.{Db, Action, transaction}
use tool_permission_enforcer.Store.Agents
use tool_permission_enforcer.Store.Tools
use tool_permission_enforcer.Store.Manifests
use tool_permission_enforcer.Store.Customers
use tool_permission_enforcer.Seed.Data.{
  seed_agent_id, seed_tool_id, seed_manifest_id, read_only_manifest, seed_customers,
}
use tool_permission_enforcer.Seed.{
  SeedSummary, seed_agent, seed_tool, seed_manifest, add_customers, activate_if_draft, summary_of,
  seed_phase_1,
}
use tool_permission_enforcer.Seed.Stages.{
  HasAgent, HasTool, HasManifest, HasCustomer, seed_agent-HasAgent, seed_tool-HasTool,
  seed_manifest-HasManifest, add_customers-HasCustomer,
}
use tool_permission_enforcer.Store.Found.{first_where-passes}
use tool_permission_enforcer.Seed.Unchanged.{IsSeeded, IsSeeded-unchanged}
use tool_permission_enforcer.Seed.Activated.{activate_if_draft-found}

-- Each part of the seed stands in one table.
HasAgent-same : (db db' : Db) → db'.agents ≡ db.agents → HasAgent db → HasAgent db'
unfolding Agents.get
HasAgent-same db db' same h = rw same h

HasTool-same : (db db' : Db) → db'.tools ≡ db.tools → HasTool db → HasTool db'
unfolding Tools.get
HasTool-same db db' same h = rw same h

HasManifest-same :
    (checksum : String) (m : PermissionManifest) (db db' : Db)
    → db'.manifests ≡ db.manifests
    → HasManifest checksum m db
    → HasManifest checksum m db'
unfolding Manifests.get
HasManifest-same checksum m db db' same h = rw same h

HasCustomer-same :
    (db db' : Db)
    → db'.customers ≡ db.customers
    → (cs : List CrmCustomer) → All (HasCustomer db) cs
    → All (HasCustomer db') cs
unfolding Customers.get
HasCustomer-same db db' same [] h = tt
HasCustomer-same db db' same (c ∷ cs) (first, rest) =
    (rw same first, HasCustomer-same db db' same cs rest)

found_id :
    (m : PermissionManifest) (db : Db)
    → Manifests.get seed_manifest_id db ≡ some m
    → m.manifest_id ≡ seed_manifest_id
unfolding Manifests.get
found_id m db found =
    ground (arith, first_where-passes (λ x. x.manifest_id == seed_manifest_id) m db.manifests found)

found_by_id :
    (m : PermissionManifest) (db : Db)
    → Manifests.get seed_manifest_id db ≡ some m
    → Manifests.get m.manifest_id db ≡ some m
found_by_id m db found =
    subst (λ id. Manifests.get id db ≡ some m) (sym (found_id m db found)) found

transaction_ok :
    {A : Type 0} (m : Action A) (db db' : Db) (a : A)
    → transaction m db ≡ (ok a, db')
    → m db ≡ (ok a, db')
transaction_ok m db db' a h = elim (Result-cases (m db).0) [
  | inl (b, e) ↦ ground arith
  | inr (x, e) ↦ absurd (ground arith)
]

module _ (digest : Json → String) (now : ℕ) where
  -- The transaction from its last parts to the first.
  abbrev from_activation : PermissionManifest → Action SeedSummary
  from_activation m = do active ← activate_if_draft m now; gets (summary_of active)

  abbrev from_customers : PermissionManifest → Action SeedSummary
  from_customers m = do add_customers seed_customers; from_activation m

  abbrev from_manifest : Action SeedSummary
  from_manifest = do
    found ← gets (Manifests.get seed_manifest_id)
    m ← seed_manifest (digest read_only_manifest) found
    from_customers m

  abbrev from_tool : Action SeedSummary
  from_tool = do tool ← gets (Tools.get seed_tool_id); seed_tool tool; from_manifest

  abbrev from_agent : Action SeedSummary
  from_agent = do agent ← gets (Agents.get seed_agent_id); seed_agent agent; from_tool

  seed_phase_1-parts :
      (db db' : Db) (s : SeedSummary)
      → seed_phase_1 digest now db ≡ (ok s, db')
      → from_agent db ≡ (ok s, db')
  unfolding seed_phase_1
  seed_phase_1-parts db db' s h = transaction_ok from_agent db db' s h

  activation-lem :
      (m : PermissionManifest) (db db' : Db) (s : SeedSummary)
      → from_activation m db ≡ (ok s, db')
      → (active : PermissionManifest) × (activate_if_draft m now db ≡ (ok active, db'))
        × (s ≡ summary_of active db')
  activation-lem m db db' s h =
      let (active, mid, ran, rest) =
        bind_ok (activate_if_draft m now) (λ x. gets (summary_of x)) db db' s h in
      (active, ground (arith, ran, rest), ground (arith, rest))

  pub parts-IsSeeded :
      (db db' : Db) (s : SeedSummary)
      → from_agent db ≡ (ok s, db')
      → (m : PermissionManifest) × IsSeeded (digest read_only_manifest) m db'
        × (s ≡ summary_of m db')
  parts-IsSeeded db d5 s h0 =
      let (_, d1, ran1, h1) =
        bind_ok (seed_agent (Agents.get seed_agent_id db)) (λ _. from_tool) db d5 s h0 in
      let (_, d2, ran2, h2) =
        bind_ok (seed_tool (Tools.get seed_tool_id d1)) (λ _. from_manifest) d1 d5 s h1 in
      let (m, d3, ran3, h3) =
        bind_ok (seed_manifest (digest read_only_manifest) (Manifests.get seed_manifest_id d2))
          from_customers d2 d5 s h2 in
      let (_, d4, ran4, h4) =
        bind_ok (add_customers seed_customers) (λ _. from_activation m) d3 d5 s h3 in
      let (active, ran5, sum) = activation-lem m d4 d5 s h4 in
      let (agent, (agents, e1)) = seed_agent-HasAgent db d1 ran1 in
      let (tool, (tools, e2)) = seed_tool-HasTool d1 d2 ran2 in
      let (manifest, (rows, e3)) =
        seed_manifest-HasManifest (digest read_only_manifest) m d2 d3 ran3 in
      let (customers, (later, e4)) = add_customers-HasCustomer seed_customers d3 d4 ran4 in
      let found =
        (HasManifest-same (digest read_only_manifest) m d3 d4 (ground (arith, e4)) manifest).0 in
      let (kept, checksum, id, final, (rows', e5)) =
        activate_if_draft-found m active now d4 d5 (found_by_id m d4 found) ran5 in
      (
        active,
        record {
          agent = HasAgent-same d1 d5 (ground (arith, e2, e3, e4, e5)) agent;
          tool = HasTool-same d2 d5 (ground (arith, e3, e4, e5)) tool;
          manifest = (rw (found_id m d4 found) at kept, rw checksum (manifest.1));
          final = final;
          customers = HasCustomer-same d4 d5 (ground (arith, e5)) seed_customers customers;
        },
        sum,
      )

-- Seeding a database that was just seeded, at whatever time, changes nothing and answers the same
-- summary.
pub seed_phase_1-twice :
    (digest : Json → String) (now later : ℕ) (db db' : Db) (s : SeedSummary)
    → seed_phase_1 digest now db ≡ (ok s, db')
    → seed_phase_1 digest later db' ≡ (ok s, db')
seed_phase_1-twice digest now later db db' s h =
    let (m, seeded, sum) =
      parts-IsSeeded digest now db db' s (seed_phase_1-parts digest now db db' s h) in
    rw sum (IsSeeded-unchanged digest later m db' seeded)
