-- ===== src/Store/Customers.antt =====
-- `CustomerRepository`
use tool_permission_enforcer.Base.{
  ℕ, String, not, Option, [], ◌∷◌, ◌++◌, ◌==◌, map, string_eq, first_where, all_where, any, length,
  if◌then◌else◌,
}
use tool_permission_enforcer.Base.Outcome.{◌>>=◌, ◌>>◌, pure, raise_if, gets, modify}
use tool_permission_enforcer.Domain.Errors.{integrity_error}
use tool_permission_enforcer.Domain.Models.{CrmCustomer}
use tool_permission_enforcer.Store.{Db, Action}

unfoldable pub get : String → Db → Option CrmCustomer
get customer_id db = first_where (λ c. c.customer_id == customer_id) db.customers

unfoldable pub add : CrmCustomer → Action CrmCustomer
add c = do
  raise_if (← gets (λ db. any (λ old. old.customer_id == c.customer_id) db.customers))
      integrity_error
  modify (λ db. record db { customers = db.customers ++ (c ∷ []) })
  pure c

unfoldable pub delete : CrmCustomer → Action (Unit {0})
delete c = modify (λ db. record db {
  customers = all_where (λ old. not (old.customer_id == c.customer_id)) db.customers;
})

-- What a flush writes to the row of a changed object.
abbrev pub save : CrmCustomer → Action (Unit {0})
save new = modify (λ db. record db {
  customers = map (λ c. if c.customer_id == new.customer_id then new else c) db.customers;
})

abbrev pub count : Db → ℕ
count db = length db.customers
