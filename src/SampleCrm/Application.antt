-- ===== src/SampleCrm/Application.antt =====
-- The application of services/sample_crm/main.py: the customer routes, and what it answers about
-- itself. `ping` is whether the database answered.
use tool_permission_enforcer.Base.{ℕ, String, Bool, Option}
use tool_permission_enforcer.Base.Outcome.{◌>>=◌, pure}
use tool_permission_enforcer.Domain.Models.{CrmCustomer}
use tool_permission_enforcer.Store.{Action}
use tool_permission_enforcer.Settings.{SampleCrmSettings}
use tool_permission_enforcer.Service.{
  ServiceConfig, ServiceInfo, HealthResponse, service_info, liveness, readiness,
}
use tool_permission_enforcer.SampleCrm.{CustomerRequest}
use tool_permission_enforcer.SampleCrm

-- A request to a customer route has its `X-Internal-API-Key`.
pub data AppRequest : Type 0 where
  customers : Option String → CustomerRequest → AppRequest
  about alive ready : AppRequest

pub data AppReply : Type 0 where
  customer : Option CrmCustomer → AppReply
  information : ServiceInfo → AppReply
  health : ℕ → HealthResponse → AppReply

unfoldable pub handle_app :
    SampleCrmSettings → ServiceConfig → Bool → ℕ → AppRequest → Action AppReply
handle_app settings config ping now (customers supplied_key request) = do
  found ← SampleCrm.handle settings supplied_key request
  pure (customer found)
handle_app settings config ping now about = pure (information (service_info config))
handle_app settings config ping now alive = pure (health 200 (liveness config now))
handle_app settings config ping now ready =
    let (code, body) = readiness config ping now in pure (health code body)
