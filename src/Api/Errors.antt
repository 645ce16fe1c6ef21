-- ===== src/Api/Errors.antt =====
-- How the handlers of api/security_routes.py answer the errors of the services, and the check of the
-- bearer token that the routes share.
use tool_permission_enforcer.Base.{
  ℕ, String, Bool, true, false, not, ◌&&◌, nat_eq, Option, none, some, List, [], ◌∷◌, ◌==◌,
  string_eq, contains, if◌then◌else◌,
}
use tool_permission_enforcer.Base.Text.{codes, lower}
use tool_permission_enforcer.Base.Outcome.{Result, ok, err}
use tool_permission_enforcer.Domain.Errors.{
  Error, authentication_error, authorization_error, trusted_session_error, http_exception,
}
use tool_permission_enforcer.Security.Auth.{Principal, decode}
use tool_permission_enforcer.Security.Jwt.{Jwt, KeyReply}
use tool_permission_enforcer.Settings.{PermissionProxySettings}

-- `HTTPAuthorizationCredentials`
pub record Credentials (Token : Type 0) : Type 0 where
  pub scheme : String
  pub credentials : Token

abbrev pub unauthorized_codes : List String
unauthorized_codes =
    "INVALID_SESSION_TOKEN" ∷ "INVALID_SESSION_TOKEN_USE" ∷ "SESSION_TOKEN_EXPIRED"
    ∷ "SESSION_EXPIRED" ∷ "SESSION_NOT_ACTIVE" ∷ "SESSION_JTI_MISMATCH" ∷ "SESSION_CLAIMS_MISMATCH"
    ∷ []

same_codes : List ℕ → List ℕ → Bool
same_codes [] [] = true
same_codes (a ∷ as_) (b ∷ bs) = a == b && same_codes as_ bs
same_codes _ _ = false

-- `scheme.lower() == "bearer"`
unfoldable pub is_bearer : String → Bool
unfolding same_codes nat_eq
is_bearer scheme = same_codes (lower (codes scheme)) (codes "bearer")

-- The status of `session_exception`.
unfoldable pub session_status : String → ℕ
session_status code =
    if contains unauthorized_codes code
    then 401
    else if contains ("SESSION_AGENT_MISMATCH" ∷ "AGENT_NOT_ACTIVE" ∷ []) code
    then 403
    else if contains ("AGENT_NOT_FOUND" ∷ "SESSION_NOT_FOUND" ∷ []) code
    then 404
    else 400

-- `authentication_exception`, `authorization_exception` and `session_exception`
unfoldable pub http_error : Error → Error
http_error (authentication_error code message) = http_exception 401 code
http_error (authorization_error code message) = http_exception 403 code
http_error (trusted_session_error code message) = http_exception (session_status code) code
http_error e = e

-- The handlers of an `except` clause, for code that only returns or raises.
abbrev pub answered : {A : Type 0} → Result Error A → Result Error A
answered (ok a) = ok a
answered (err e) = err (http_error e)

module _ (jwt : Jwt) (settings : PermissionProxySettings)
    (provider : Option (jwt.Token → KeyReply)) where
  -- `authenticated_principal`, without its handlers
  unfoldable pub bearer_principal : Option (Credentials jwt.Token) → ℕ → Result Error Principal
  bearer_principal none now = err (http_exception 401 "MISSING_ACCESS_TOKEN")
  bearer_principal (some given) now =
      if not (is_bearer given.scheme)
      then err (http_exception 401 "MISSING_ACCESS_TOKEN")
      else decode jwt settings provider given.credentials now
