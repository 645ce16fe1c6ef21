-- ===== src/Seed/Stages.antt =====
-- What each part of the seeding leaves in the database.
use mathlib.Core.List.{append-nil, append_assoc}
use tool_permission_enforcer.Base.{
  String, true, some, List, [], ◌∷◌, ◌++◌, ◌==◌, ◌≡◌, inl, inr, refl, arith, string_eq,
  Option-cases, All,
}
use tool_permission_enforcer.Store.Found.{first_where-snoc, first_where-append}
use tool_permission_enforcer.Base.Outcome.{ok, bind_ok}
use tool_permission_enforcer.Domain.Models.{Agent, ToolDefinition, PermissionManifest, CrmCustomer}
use tool_permission_enforcer.Store.{Db}
use tool_permission_enforcer.Store.Agents
use tool_permission_enforcer.Store.Tools
use tool_permission_enforcer.Store.Manifests
use tool_permission_enforcer.Store.Customers
use tool_permission_enforcer.Seed.Data.{seed_agent_id, seed_tool_id, seed_manifest_id}
use tool_permission_enforcer.Seed.{
  support_agent, crm_tool, draft_manifest, seed_agent, seed_tool, seed_manifest, seed_customer,
  add_customers,
}

-- The agent is there with the subject of the seed.
abbrev pub HasAgent : Db → Type 0
HasAgent db =
    (a : Agent) × (Agents.get seed_agent_id db ≡ some a)
    × ((a.oidc_subject == "dev:agent_support_001") ≡ true)

abbrev pub HasTool : Db → Type 0
HasTool db =
    (t : ToolDefinition) × (Tools.get seed_tool_id db ≡ some t) × ((t.name == "crm") ≡ true)

-- The manifest is the row `m`, and its document is the one of the seed.
abbrev pub HasManifest : String → PermissionManifest → Db → Type 0
HasManifest checksum m db =
    (Manifests.get seed_manifest_id db ≡ some m) × ((m.checksum == checksum) ≡ true)

abbrev pub HasCustomer : Db → CrmCustomer → Type 0
HasCustomer db data_ =
    (c : CrmCustomer) × (Customers.get data_.customer_id db ≡ some c)
    × ((c.name == data_.name) ≡ true)

pub seed_agent-HasAgent :
    (db db' : Db)
    → seed_agent (Agents.get seed_agent_id db) db ≡ (ok tt, db')
    → HasAgent db' × ((agents : List Agent) × (db' ≡ record db { agents = agents }))
unfolding seed_agent Agents.get Agents.add string_eq
seed_agent-HasAgent db db' h = elim (Option-cases (Agents.get seed_agent_id db)) [
  | inl missing ↦
      let added : db' ≡ record db { agents = db.agents ++ (support_agent ∷ []) } = ground arith in
      rw added (
        (
          support_agent,
          first_where-snoc (λ a. a.agent_id == seed_agent_id) support_agent db.agents missing refl,
          refl,
        ),
        (_, refl),
      )
  | inr (a, found) ↦
      let same : db' ≡ db = ground arith in rw same ((a, found, ground arith), (db.agents, refl))
]

pub seed_tool-HasTool :
    (db db' : Db)
    → seed_tool (Tools.get seed_tool_id db) db ≡ (ok tt, db')
    → HasTool db' × ((tools : List ToolDefinition) × (db' ≡ record db { tools = tools }))
unfolding seed_tool Tools.get Tools.add string_eq
seed_tool-HasTool db db' h = elim (Option-cases (Tools.get seed_tool_id db)) [
  | inl missing ↦
      let added : db' ≡ record db { tools = db.tools ++ (crm_tool ∷ []) } = ground arith in
      rw added (
        (
          crm_tool,
          first_where-snoc (λ t. t.tool_id == seed_tool_id) crm_tool db.tools missing refl,
          refl,
        ),
        (_, refl),
      )
  | inr (t, found) ↦
      let same : db' ≡ db = ground arith in rw same ((t, found, ground arith), (db.tools, refl))
]

seed_id : (checksum : String) → ((draft_manifest checksum).manifest_id == seed_manifest_id) ≡ true
unfolding string_eq
seed_id checksum = refl

add_ok :
    (new m : PermissionManifest) (db db' : Db)
    → Manifests.add new db ≡ (ok m, db')
    → (db' ≡ record db { manifests = db.manifests ++ (new ∷ []) }) × (m ≡ new)
unfolding Manifests.add
add_ok new m db db' h = (ground arith, ground arith)

pub seed_manifest-HasManifest :
    (checksum : String) (m : PermissionManifest) (db db' : Db)
    → seed_manifest checksum (Manifests.get seed_manifest_id db) db ≡ (ok m, db')
    → HasManifest checksum m db'
      × ((rows : List PermissionManifest) × (db' ≡ record db { manifests = rows }))
unfolding seed_manifest Manifests.get Manifests.add
seed_manifest-HasManifest checksum m db db' h =
    elim (Option-cases (Manifests.get seed_manifest_id db)) [
      | inl missing ↦
          let (added, it) = add_ok (draft_manifest checksum) m db db' (ground arith) in
          rw (added, it)
            (
              (
                first_where-snoc (λ x. x.manifest_id == seed_manifest_id) (draft_manifest checksum)
                    db.manifests missing (seed_id checksum),
                ground arith,
              ),
              (_, refl),
            )
      | inr (old, found) ↦
          let same : db' ≡ db = ground arith in
          let it : m ≡ old = ground arith in
          rw (same, it) ((found, ground arith), (db.manifests, refl))
    ]

seed_customer-HasCustomer :
    (data_ : CrmCustomer) (db db' : Db)
    → seed_customer data_ (Customers.get data_.customer_id db) db ≡ (ok tt, db')
    → HasCustomer db' data_
      × ((later : List CrmCustomer) × (db' ≡ record db { customers = db.customers ++ later }))
unfolding seed_customer Customers.get Customers.add
seed_customer-HasCustomer data_ db db' h =
    elim (Option-cases (Customers.get data_.customer_id db)) [
      | inl missing ↦
          let added : db' ≡ record db { customers = db.customers ++ (data_ ∷ []) } = ground arith in
          rw added (
            (
              data_,
              first_where-snoc (λ c. c.customer_id == data_.customer_id) data_ db.customers missing
                  (ground arith),
              ground arith,
            ),
            (data_ ∷ [], refl),
          )
      | inr (c, found) ↦
          let same : db' ≡ db = ground arith in
          rw same ((c, found, ground arith), ([], rw append-nil refl))
    ]

HasCustomer-later :
    (data_ : CrmCustomer) (db : Db) (later : List CrmCustomer)
    → HasCustomer db data_
    → HasCustomer (record db { customers = db.customers ++ later }) data_
unfolding Customers.get
HasCustomer-later data_ db later (c, found, name) = (
  c,
  first_where-append (λ x. x.customer_id == data_.customer_id) c db.customers later found,
  name,
)

pub add_customers-HasCustomer :
    (cs : List CrmCustomer) (db db' : Db)
    → add_customers cs db ≡ (ok tt, db')
    → All (HasCustomer db') cs
      × ((later : List CrmCustomer) × (db' ≡ record db { customers = db.customers ++ later }))
unfolding add_customers
add_customers-HasCustomer [] db db' h =
    let same : db' ≡ db = ground arith in (tt, ([], rw (same, append-nil) refl))
add_customers-HasCustomer (data_ ∷ cs) db db' h =
    let (_, mid, first, rest) =
      bind_ok (seed_customer data_ (Customers.get data_.customer_id db)) (λ _. add_customers cs) db
        db' tt h in
    let (has, (more, mid_is)) = seed_customer-HasCustomer data_ db mid first in
    let (have, (later, end_is)) = add_customers-HasCustomer cs mid db' rest in
    (
      (rw end_is (HasCustomer-later data_ mid later has), have),
      (more ++ later, rw (end_is, mid_is, append_assoc) refl),
    )
