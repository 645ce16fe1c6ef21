-- ===== src/Service.antt =====
-- What every service answers about itself: services/common/models.py and the service routes of the
-- three main.py. `ping` is whether the database answered, `generated_at` the clock.
use tool_permission_enforcer.Base.{ℕ, String, Bool, [], ◌∷◌, ◌==◌, string_eq, if◌then◌else◌}
use tool_permission_enforcer.Base.Dict.{Dict}
use tool_permission_enforcer.Domain.Models.{Datetime, aware}
use tool_permission_enforcer.Settings.{ReferenceAgentSettings}

-- The fields of `BaseServiceSettings` that the routes show.
pub record ServiceConfig : Type 0 where
  pub service_name : String
  pub service_version : String
  pub app_env : String

pub record ServiceInfo : Type 0 where
  pub name : String
  pub version : String
  pub environment : String
  pub docs_url : String

pub record HealthResponse : Type 0 where
  pub service : String
  pub status : String
  pub version : String
  pub environment : String
  pub checks : Dict String
  pub generated_at : Datetime

module _ (config : ServiceConfig) where
  unfoldable pub service_info : ServiceInfo
  service_info = record {
    name = config.service_name;
    version = config.service_version;
    environment = config.app_env;
    docs_url = "/docs";
  }

  abbrev health : String → Dict String → ℕ → HealthResponse
  health status checks now = record {
    service = config.service_name;
    status = status;
    version = config.service_version;
    environment = config.app_env;
    checks = checks;
    generated_at = aware now;
  }

  unfoldable pub liveness : ℕ → HealthResponse
  liveness now = health "alive" [] now

  -- The status code and the body of `/health/ready`, for a service with a database.
  unfoldable pub readiness : Bool → ℕ → ℕ × HealthResponse
  readiness ping now = (
    if ping then 200 else 503,
    health (if ping then "ready" else "not_ready")
        (("configuration", "ok") ∷ ("database", if ping then "ok" else "unavailable") ∷ []) now,
  )

  -- The reference agent has no database.
  unfoldable pub agent_readiness : ReferenceAgentSettings → ℕ → HealthResponse
  agent_readiness settings now =
      let provider_status =
        if settings.llm_provider == "disabled" then "disabled" else "configured" in
      health "ready" (("configuration", "ok") ∷ ("llm_provider", provider_status) ∷ []) now
