-- ===== src/SampleCrm/Access.antt =====
-- What the internal key guards, and what an update and a deletion leave.
use tool_permission_enforcer.Base.{
  String, not, Option, none, some, List, [], ◌∷◌, ◌≡◌, ◌≢◌, refl, arith, ◌==◌, string_eq, inl, inr,
  ◌∙◌, Option-cases, Bool-cases, true, ◌⊎◌, first_where, all_where, map, if◌then◌else◌,
}
use tool_permission_enforcer.Base.Outcome.{ok, err}
use tool_permission_enforcer.Domain.Errors.{Error, type_error, http_exception}
use tool_permission_enforcer.Domain.Models.{CrmCustomer}
use tool_permission_enforcer.Store.{Db}
use tool_permission_enforcer.Store.Customers
use tool_permission_enforcer.Settings.{SampleCrmSettings}
use tool_permission_enforcer.SampleCrm.{
  CustomerRequest, is_ascii, invalid_credential, require_internal_key, CustomerPatch, read, update,
  delete, route, handle, read_customer, update_customer, delete_customer, apply_patch,
}

abbrev find : String → List CrmCustomer → Option CrmCustomer
find id = first_where (λ c. c.customer_id == id)

abbrev without : String → List CrmCustomer → List CrmCustomer
without id = all_where (λ old. not (old.customer_id == id))

find-without : (id : String) (rows : List CrmCustomer) → find id (without id rows) ≡ none
find-without id [] = refl
find-without id (c ∷ rows) = ground (arith, find-without id rows)

find-without-other :
    (id other : String) (rows : List CrmCustomer)
    → other ≢ id
    → find other (without id rows) ≡ find other rows
find-without-other id other [] n = refl
find-without-other id other (c ∷ rows) n = ground (arith, find-without-other id other rows n)

find-id :
    (id : String) (c : CrmCustomer) (rows : List CrmCustomer)
    → find id rows ≡ some c
    → c.customer_id ≡ id
find-id id c [] h = absurd (ground arith)
find-id id c (d ∷ rows) h = ground (arith, find-id id c rows)

abbrev replaced : CrmCustomer → List CrmCustomer → List CrmCustomer
replaced new = map (λ c. if c.customer_id == new.customer_id then new else c)

find-replaced :
    (new old : CrmCustomer) (rows : List CrmCustomer)
    → find new.customer_id rows ≡ some old
    → find new.customer_id (replaced new rows) ≡ some new
find-replaced new old [] h = absurd (ground arith)
find-replaced new old (c ∷ rows) h = ground (arith, find-replaced new old rows)

-- If the configured key is ASCII, then a request with it is routed, and any other request raises an
-- error and changes nothing.
pub handle-guarded :
    (settings : SampleCrmSettings) (key : Option String) (r : CustomerRequest) (db : Db)
    → is_ascii settings.internal_api_key ≡ true
    → ((key ≡ some settings.internal_api_key) × (handle settings key r db ≡ route r db))
      ⊎ ((key ≢ some settings.internal_api_key)
          × ((e : Error) × (handle settings key r db ≡ (err e, db))))
unfolding handle require_internal_key
handle-guarded settings none r db ascii = inr (cc, (invalid_credential, refl))
handle-guarded settings (some k) r db ascii = elim (Bool-cases (k == settings.internal_api_key)) [
  | inl same ↦ inl (ground arith, ground (arith, ascii))
  | inr other ↦ elim (Bool-cases (is_ascii k)) [
    | inl plain ↦ inr (ground arith, (invalid_credential, ground (arith, ascii)))
    | inr odd ↦ inr (ground arith, (type_error, ground (arith, ascii)))
  ]
]

deleted_rows :
    (id : String) (c : CrmCustomer) (db : Db)
    → find id db.customers ≡ some c
    → (route (delete id) db).1.customers ≡ without id db.customers
unfolding route delete_customer Customers.get Customers.delete
deleted_rows id c db found = ground (arith, find-id id c db.customers found)

delete-found :
    (id : String) (db : Db) (reply : Option CrmCustomer)
    → (route (delete id) db).0 ≡ ok reply
    → find id db.customers ≢ none
unfolding route delete_customer Customers.get
delete-found id db reply h missing = ground arith

read-missing :
    (id : String) (db : Db)
    → find id db.customers ≡ none
    → (read_customer id db).0 ≡ err (http_exception 404 "CUSTOMER_NOT_FOUND")
unfolding read_customer Customers.get
read-missing id db h = ground arith

read-found :
    (id : String) (c : CrmCustomer) (db : Db)
    → find id db.customers ≡ some c
    → (route (read id) db).0 ≡ ok (some c)
unfolding route read_customer Customers.get
read-found id c db h = ground arith

-- After a deletion the customer is not found, and every other customer is found as before.
pub delete-read :
    (id other : String) (db : Db) (reply : Option CrmCustomer)
    → (route (delete id) db).0 ≡ ok reply
    → ((read_customer id (route (delete id) db).1).0
        ≡ err (http_exception 404 "CUSTOMER_NOT_FOUND"))
      × (other ≢ id → Customers.get other (route (delete id) db).1 ≡ Customers.get other db)
unfolding Customers.get
delete-read id other db reply h = elim (Option-cases (find id db.customers)) [
  | inl missing ↦ absurd (delete-found id db reply h missing)
  | inr (c, found) ↦
      let rows = deleted_rows id c db found in
      (
        read-missing id (route (delete id) db).1 (rw rows (find-without id db.customers)),
        λ n. rw rows (find-without-other id other db.customers n),
      )
]

apply_patch-reads : (p : CustomerPatch) (c : CrmCustomer) (db : Db) → (apply_patch p c db).1 ≡ db
unfolding apply_patch
apply_patch-reads p c db = ground arith

apply_patch-id :
    (p : CustomerPatch) (c new : CrmCustomer) (db : Db)
    → (apply_patch p c db).0 ≡ ok new
    → new.customer_id ≡ c.customer_id
unfolding apply_patch
apply_patch-id p c new db h = ground arith

update-found :
    (id : String) (changes : CustomerPatch) (db : Db) (new : Option CrmCustomer)
    → (route (update id changes) db).0 ≡ ok new
    → find id db.customers ≢ none
unfolding route update_customer Customers.get
update-found id changes db new h missing = ground arith

update-patch :
    (id : String) (changes : CustomerPatch) (db : Db) (c new : CrmCustomer)
    → find id db.customers ≡ some c
    → (route (update id changes) db).0 ≡ ok (some new)
    → (apply_patch changes c db).0 ≡ ok new
unfolding route update_customer Customers.get
update-patch id changes db c new found h = ground (arith, apply_patch-reads changes c db)

updated_rows :
    (id : String) (changes : CustomerPatch) (db : Db) (c new : CrmCustomer)
    → find id db.customers ≡ some c
    → (apply_patch changes c db).0 ≡ ok new
    → (route (update id changes) db).0 ≡ ok (some new)
    → (route (update id changes) db).1.customers ≡ replaced new db.customers
unfolding route update_customer Customers.get
updated_rows id changes db c new found patched h = ground (arith, apply_patch-reads changes c db)

-- After an update that answered with a new row, reading the customer gives this row.
pub update-read :
    (id : String) (changes : CustomerPatch) (db : Db) (new : CrmCustomer)
    → (route (update id changes) db).0 ≡ ok (some new)
    → (route (read id) (route (update id changes) db).1).0 ≡ ok (some new)
update-read id changes db new h = elim (Option-cases (find id db.customers)) [
  | inl missing ↦ absurd (update-found id changes db (some new) h missing)
  | inr (c, found) ↦
      let patched = update-patch id changes db c new found h in
      let rows = updated_rows id changes db c new found patched h in
      let same = apply_patch-id changes c new db patched ∙ find-id id c db.customers found in
      read-found id new (route (update id changes) db).1
        (rw rows (ground (arith, same, find-replaced new c db.customers)))
]
