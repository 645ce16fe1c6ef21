-- ===== src/Tests/Tokens.antt =====
-- A configuration, and tokens that are the claims and the key that signed them.
use tool_permission_enforcer.Base.{
  ℕ, String, Bool, true, false, ◌&&◌, Option, none, some, List, arith, ◌≡◌, ◌≢◌, refl, string_eq,
  ◌==◌, all, leb, ltb, if◌then◌else◌,
}
use tool_permission_enforcer.Base.Dict.{Dict, lookup, has_key}
use tool_permission_enforcer.Base.Json.{Json, int, str, pos}
use tool_permission_enforcer.Settings.{PermissionProxySettings, Environment, ratio}
use tool_permission_enforcer.Security.Jwt.{Jwt, Decoded, claims, expired, invalid, ReadsBack}
use tool_permission_enforcer.Security.TrustedSessions.Codec
use tool_permission_enforcer.Tests.Fixture as F

abbrev pub settings : PermissionProxySettings
settings = record {
  app_env = Environment.local;
  crm_internal_api_key = "local-development-only-change-me";
  oidc_issuer = record { scheme = "http"; text = "http://issuer.test/" };
  oidc_audience = "tool-permission-enforcer";
  oidc_jwks_url = none;
  oidc_algorithm = "RS256";
  dev_auth_enabled = true;
  dev_jwt_secret = "local-development-jwt-secret-change-me";
  session_token_issuer = "tool-permission-enforcer";
  session_token_audience = "tool-permission-enforcer-session";
  session_signing_secret = "local-development-session-secret-change-me";
  session_token_ttl_seconds = 900;
  upstream_timeout_seconds = ratio 5 0;
}

abbrev seconds : Option Json → Option ℕ
seconds (some (int (pos n))) = some n
seconds _ = none

abbrev text_is : Option Json → String → Bool
text_is (some (str s)) t = s == t
text_is _ t = false

abbrev begun : Option ℕ → ℕ → Bool
begun none now = false
begun (some n) now = leb n now

abbrev in_time : Dict Json → Option ℕ → ℕ → Decoded
in_time c none now = invalid
in_time c (some exp) now = if ltb now exp then claims c else expired

abbrev read : Dict Json × String → String → String → String → String → List String → ℕ → Decoded
read (c, k) secret algorithm audience issuer required now =
    if (k == secret)
      && text_is (lookup "aud" c) audience
      && text_is (lookup "iss" c) issuer
      && all (λ r. has_key r c) required
      && begun (seconds (lookup "iat" c)) now
      && begun (seconds (lookup "nbf" c)) now
    then in_time c (seconds (lookup "exp" c)) now
    else invalid

abbrev pub jwt : Jwt
jwt = record {
  Token = Dict Json × String;
  encode = λ c secret. (c, secret);
  decode = read;
  other_timestamp = λ j. none;
}

pub jwt-ReadsBack : (secret : String) → ReadsBack jwt secret
jwt-ReadsBack secret c audience issuer required now iat nbf exp plain differ sub jti held named aud
      iss i n e i_le n_le lt ends =
    ground arith

abbrev is_empty : String → Bool
is_empty s = s == ""

filled : (s : String) → is_empty s ≡ false → s ≢ ""
filled s h = ground arith

pub audiences_filled : (settings.oidc_audience ≢ "") × (settings.session_token_audience ≢ "")
unfolding string_eq
audiences_filled = (filled settings.oidc_audience refl, filled settings.session_token_audience refl)

abbrev pub old_token : Dict Json × String
old_token = Codec.issue jwt settings F.session
