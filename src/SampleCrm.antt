-- ===== src/SampleCrm.antt =====
-- services/sample_crm/api.py: the private CRM. The email and the length bounds of a patch are checked
-- by the framework before the handler.
pub mod Access
pub mod Application
use tool_permission_enforcer.Base.{
  ℕ, String, Bool, true, false, not, ◌&&◌, Option, none, some, ◌==◌, string_eq, if◌then◌else◌, all,
  ltb,
}
use tool_permission_enforcer.Base.Outcome.{
  ok, err, ◌>>=◌, ◌>>◌, pure, raise, raise_if, gets, or_raise, lift,
}
use tool_permission_enforcer.Domain.Errors.{
  Error, type_error, http_exception, integrity_error, value_error,
}
use tool_permission_enforcer.Base.Text.{codes}
use tool_permission_enforcer.Domain.Models.{CrmCustomer}
use tool_permission_enforcer.Store.{Db, Action, transaction}
use tool_permission_enforcer.Store.Customers
use tool_permission_enforcer.Settings.{SampleCrmSettings}

-- A field of a patch: left out, given as null, or given as a text.
pub data Change : Type 0 where
  unset null : Change
  value : String → Change

pub record CustomerPatch : Type 0 where
  pub name : Change
  pub email : Change
  pub support_tier : Change
  pub address : Change

abbrev is_unset : Change → Bool
is_unset unset = true
is_unset _ = false

-- `require_change`
unfoldable pub require_change : CustomerPatch → Bool
require_change p =
    not (is_unset p.name && is_unset p.email && is_unset p.support_tier && is_unset p.address)

-- `setattr`; the columns hold no null, and the flush then fails.
abbrev pub changed : Change → String → Option String
changed unset old = some old
changed null old = none
changed (value new) old = some new

unfoldable pub apply_patch : CustomerPatch → CrmCustomer → Action CrmCustomer
apply_patch p customer = do
  name ← or_raise (changed p.name customer.name) integrity_error
  email ← or_raise (changed p.email customer.email) integrity_error
  support_tier ← or_raise (changed p.support_tier customer.support_tier) integrity_error
  address ← or_raise (changed p.address customer.address) integrity_error
  pure (record {
    customer_id = customer.customer_id;
    name = name;
    email = email;
    support_tier = support_tier;
    address = address;
  })

abbrev pub is_ascii : String → Bool
is_ascii s = all (λ c. ltb c 128) (codes s)

abbrev pub invalid_credential : Error
invalid_credential = http_exception 401 "INVALID_INTERNAL_CREDENTIAL"

-- `require_internal_key`: `compare_digest` takes two texts only if both are ASCII.
unfoldable pub require_internal_key : Option String → String → Action (Unit {0})
require_internal_key none expected = raise invalid_credential
require_internal_key (some supplied) expected = do
  raise_if (not (is_ascii supplied && is_ascii expected)) type_error
  raise_if (not (supplied == expected)) invalid_credential

pub data CustomerRequest : Type 0 where
  read : String → CustomerRequest
  update : String → CustomerPatch → CustomerRequest
  delete : String → CustomerRequest

abbrev missing : Error
missing = http_exception 404 "CUSTOMER_NOT_FOUND"

-- A row, or nothing after a deletion.
unfoldable pub read_customer : String → Action (Option CrmCustomer)
read_customer customer_id = transaction (do
  found ← gets (Customers.get customer_id)
  customer ← or_raise found missing
  pure (some customer))

unfoldable pub update_customer : String → CustomerPatch → Action (Option CrmCustomer)
update_customer customer_id changes = transaction (do
  found ← gets (Customers.get customer_id)
  customer ← or_raise found missing
  new ← apply_patch changes customer
  Customers.save new
  pure (some new))

unfoldable pub delete_customer : String → Action (Option CrmCustomer)
delete_customer customer_id = transaction (do
  found ← gets (Customers.get customer_id)
  customer ← or_raise found missing
  Customers.delete customer
  pure none)

-- The route, without the check of the key. A patch without a change is refused by the framework.
unfoldable pub route : CustomerRequest → Action (Option CrmCustomer)
route (read customer_id) = read_customer customer_id
route (update customer_id changes) = do
  raise_if (not (require_change changes)) (http_exception 422 "VALIDATION_ERROR")
  update_customer customer_id changes
route (delete customer_id) = delete_customer customer_id

-- A request with its `X-Internal-API-Key`.
unfoldable pub handle :
    SampleCrmSettings → Option String → CustomerRequest → Action (Option CrmCustomer)
handle settings supplied_key request = do
  require_internal_key supplied_key settings.internal_api_key
  route request
