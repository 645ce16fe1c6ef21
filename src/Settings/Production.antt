-- ===== src/Settings/Production.antt =====
-- What a configuration that was accepted is known to satisfy.
use tool_permission_enforcer.Base.{
  ℕ, ◌*◌, ◌^◌, ◌≤◌, true, false, none, ◌≡◌, ◌≢◌, ◌⊎◌, ◌↔◌, arith, string_eq,
}
use tool_permission_enforcer.Base.Outcome.{ok}
use tool_permission_enforcer.Base.Text.{len}
use tool_permission_enforcer.Settings.{
  production, Float, ratio, other, timeout_is_valid, PermissionProxySettings, fields_are_valid,
  check_production, validate_proxy,
}

-- A timeout n / 2^k from the float next to 0.1, that is 3602879701896397 / 2^55, to 30.
pub data IsTimeout : Float → Type 0 where
  within :
      {n k : ℕ}
      → 3602879701896397 * 2 ^ k ≤ n * 36028797018963968
      → n ≤ 30 * 2 ^ k
      → IsTimeout (ratio n k)

accepted-IsTimeout : (t : Float) → timeout_is_valid t ≡ true → IsTimeout t
unfolding timeout_is_valid
accepted-IsTimeout other h = absurd (ground arith)
accepted-IsTimeout (ratio n k) h = within (ground arith) (ground arith)

IsTimeout-accepted : (t : Float) → IsTimeout t → timeout_is_valid t ≡ true
unfolding timeout_is_valid
IsTimeout-accepted other h = elim h [ ]
IsTimeout-accepted (ratio n k) (within low high) = ground arith

-- Bounds that hold in every environment.
pub record IsBounded (s : PermissionProxySettings) : Type 0 where
  pub crm_key : 32 ≤ len s.crm_internal_api_key
  pub dev_secret : 32 ≤ len s.dev_jwt_secret
  pub session_secret : 32 ≤ len s.session_signing_secret
  pub algorithm : (s.oidc_algorithm ≡ "RS256") ⊎ (s.oidc_algorithm ≡ "ES256")
  pub shortest : 60 ≤ s.session_token_ttl_seconds
  pub longest : s.session_token_ttl_seconds ≤ 3600
  pub waits : IsTimeout s.upstream_timeout_seconds

-- What production asks for in addition.
pub record IsHardened (s : PermissionProxySettings) : Type 0 where
  pub no_dev_auth : s.dev_auth_enabled ≡ false
  pub https : s.oidc_issuer.scheme ≡ "https"
  pub jwks : s.oidc_jwks_url ≢ none
  pub own_secret : s.session_signing_secret ≢ "local-development-session-secret-change-me"
  pub own_key : s.crm_internal_api_key ≢ "local-development-only-change-me"

-- Of the configurations whose fields have their types, the proxy accepts exactly those with strong secrets, an allowed algorithm, a session
-- lifetime of 60 to 3600 seconds and a timeout of 0.1 to 30 seconds for the called service that, in production, have no development authentication, an
-- HTTPS issuer, a JWKS URL, and neither of the repository's own secrets.
pub validate_proxy_iff :
    (s : PermissionProxySettings)
    → (validate_proxy s ≡ ok s) ↔ (IsBounded s × (s.app_env ≡ production → IsHardened s))
unfolding validate_proxy fields_are_valid check_production
validate_proxy_iff s = (
  λ accepted. (
    record {
      crm_key = ground arith;
      dev_secret = ground arith;
      session_secret = ground arith;
      algorithm = ground arith;
      shortest = ground arith;
      longest = ground arith;
      waits = accepted-IsTimeout s.upstream_timeout_seconds (ground arith);
    },
    λ production. record {
      no_dev_auth = ground arith;
      https = ground arith;
      jwks = ground arith;
      own_secret = ground arith;
      own_key = ground arith;
    },
  ),
  λ known. ground (arith, IsTimeout-accepted s.upstream_timeout_seconds known.0.waits),
)
