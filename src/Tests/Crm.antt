-- ===== src/Tests/Crm.antt =====
-- The properties of the CRM, for a seeded customer.
use tool_permission_enforcer.Base.{true, nat_eq, ◌⊎◌, String, none, some, ◌≡◌, ◌≢◌, refl, string_eq}
use tool_permission_enforcer.Base.Outcome.{ok, err}
use tool_permission_enforcer.Domain.Errors.{Error, http_exception}
use tool_permission_enforcer.Domain.Models.{CrmCustomer}
use tool_permission_enforcer.Store.Customers
use tool_permission_enforcer.Settings.{SampleCrmSettings, Environment}
use tool_permission_enforcer.SampleCrm.{
  is_ascii, Change, CustomerPatch, read, update, delete, route, handle, read_customer,
  update_customer, delete_customer, require_change, apply_patch,
}
use tool_permission_enforcer.SampleCrm.Access.{handle-guarded, delete-read, update-read}
use tool_permission_enforcer.Tests.Fixture.{db}

abbrev settings : SampleCrmSettings
settings = record {
  app_env = Environment.local;
  internal_api_key = "local-development-only-change-me";
}

key_is_ascii : is_ascii settings.internal_api_key ≡ true
unfolding nat_eq native.Mathlib.Decide.ℕ_discrete
key_is_ascii = refl

handle-guarded_example :
    ((some "guess" ≡ some settings.internal_api_key)
      × (handle settings (some "guess") (delete "customer_1001") db
          ≡ route (delete "customer_1001") db))
    ⊎ ((some "guess" ≢ some settings.internal_api_key)
        × ((e : Error) × (handle settings (some "guess") (delete "customer_1001") db
              ≡ (err e, db))))
handle-guarded_example =
    handle-guarded settings (some "guess") (delete "customer_1001") db key_is_ascii

is_deleted : (route (delete "customer_1001") db).0 ≡ ok none
unfolding string_eq route delete_customer Customers.get Customers.delete
is_deleted = refl

abbrev gone : String
gone = "customer_1001"

abbrev kept : String
kept = "customer_1002"

delete-read_example :
    ((read_customer gone (route (delete gone) db).1).0
      ≡ err (http_exception 404 "CUSTOMER_NOT_FOUND"))
    × (kept ≢ gone → Customers.get kept (route (delete gone) db).1 ≡ Customers.get kept db)
delete-read_example = delete-read gone kept db none is_deleted

abbrev to_silver : CustomerPatch
to_silver = record {
  name = Change.unset;
  email = Change.unset;
  support_tier = Change.value "silver";
  address = Change.unset;
}

abbrev silver : CrmCustomer
silver = record {
  customer_id = "customer_1001";
  name = "Asha Rao";
  email = "asha.rao@example.invalid";
  support_tier = "silver";
  address = "101 Synthetic Avenue, Bengaluru";
}

is_updated : (route (update "customer_1001" to_silver) db).0 ≡ ok (some silver)
unfolding string_eq route update_customer Customers.get apply_patch require_change
is_updated = refl

update-read_example :
    (route (read "customer_1001") (route (update "customer_1001" to_silver) db).1).0
    ≡ ok (some silver)
update-read_example = update-read "customer_1001" to_silver db silver is_updated
