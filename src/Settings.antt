-- ===== src/Settings.antt =====
-- The validated configuration of services/common/settings.py. Reading the environment is
-- pydantic-settings' work; modelled are the fields that the code uses and their validators. A URL is
-- its text and its scheme.
pub mod Production
use tool_permission_enforcer.Base.{
  ℕ, ◌*◌, ◌^◌, String, Bool, true, false, not, ◌&&◌, ◌||◌, Option, none, some, ◌==◌, string_eq, leb,
  ltb, if◌then◌else◌,
}
use tool_permission_enforcer.Base.Outcome.{Result, ok, err}
use tool_permission_enforcer.Base.Text.{len}
use tool_permission_enforcer.Domain.Errors.{Error, value_error}

pub data Environment : Type 0 where
  local test staging production : Environment

abbrev pub is_production : Environment → Bool
is_production production = true
is_production _ = false

pub record Url : Type 0 where
  pub scheme : String
  pub text : String

-- A float: the number n / 2^k, or one that is negative, infinite or no number.
pub data Float : Type 0 where
  ratio : ℕ → ℕ → Float
  other : Float

-- `Field(ge=0.1, le=30)`. The literal 0.1 is the float 3602879701896397 / 2^55.
unfoldable pub timeout_is_valid : Float → Bool
timeout_is_valid other = false
timeout_is_valid (ratio n k) =
    leb (3602879701896397 * 2 ^ k) (n * 36028797018963968) && leb n (30 * 2 ^ k)

pub record PermissionProxySettings : Type 0 where
  pub app_env : Environment
  pub crm_internal_api_key : String
  pub oidc_issuer : Url
  pub oidc_audience : String
  pub oidc_jwks_url : Option Url
  pub oidc_algorithm : String
  pub dev_auth_enabled : Bool
  pub dev_jwt_secret : String
  pub session_token_issuer : String
  pub session_token_audience : String
  pub session_signing_secret : String
  pub session_token_ttl_seconds : ℕ
  pub upstream_timeout_seconds : Float

pub record SampleCrmSettings : Type 0 where
  pub app_env : Environment
  pub internal_api_key : String

pub record ReferenceAgentSettings : Type 0 where
  pub llm_provider : String
  pub llm_api_key : Option String

abbrev is_none : {A : Type 0} → Option A → Bool
is_none none = true
is_none (some a) = false

-- `require_strong_hmac_secret`
abbrev pub is_strong : String → Bool
is_strong secret = not (ltb (len secret) 32)

-- `Literal["RS256", "ES256"]`, the bounds of the two numbers and the strong secrets
unfoldable pub fields_are_valid : PermissionProxySettings → Bool
fields_are_valid s =
    is_strong s.crm_internal_api_key
    && is_strong s.dev_jwt_secret
    && is_strong s.session_signing_secret
    && (s.oidc_algorithm == "RS256" || s.oidc_algorithm == "ES256")
    && leb 60 s.session_token_ttl_seconds
    && leb s.session_token_ttl_seconds 3600
    && timeout_is_valid s.upstream_timeout_seconds

-- `prohibit_development_auth_in_production`
unfoldable pub check_production : PermissionProxySettings → Result Error PermissionProxySettings
check_production s =
    if is_production s.app_env && s.dev_auth_enabled
    then err value_error
    else if is_production s.app_env && not (s.oidc_issuer.scheme == "https")
    then err value_error
    else if is_production s.app_env && is_none s.oidc_jwks_url
    then err value_error
    else if is_production s.app_env
        && s.session_signing_secret == "local-development-session-secret-change-me"
    then err value_error
    else if is_production s.app_env && s.crm_internal_api_key == "local-development-only-change-me"
    then err value_error
    else ok s

unfoldable pub validate_proxy : PermissionProxySettings → Result Error PermissionProxySettings
validate_proxy s = if fields_are_valid s then check_production s else err value_error

unfoldable pub validate_crm : SampleCrmSettings → Result Error SampleCrmSettings
validate_crm s =
    if not (is_strong s.internal_api_key)
    then err value_error
    else if is_production s.app_env && s.internal_api_key == "local-development-only-change-me"
    then err value_error
    else ok s

-- `require_key_when_provider_is_enabled`
unfoldable pub validate_agent : ReferenceAgentSettings → Result Error ReferenceAgentSettings
validate_agent s =
    if not (s.llm_provider == "disabled") && is_none s.llm_api_key then err value_error else ok s
