-- ===== src/Security/TrustedSessions/Codec.antt =====
-- `SessionTokenCodec` of security/sessions.py.
use tool_permission_enforcer.Base.{
  ℕ, ◌*◌, ◌/◌, String, Bool, not, Option, none, some, List, [], ◌∷◌, ◌==◌, ltb, string_eq,
  option_eq, if◌then◌else◌,
}
use tool_permission_enforcer.Base.Dict.{Dict, lookup}
use tool_permission_enforcer.Base.Json.{Json, str, int, pos}
use tool_permission_enforcer.Base.Outcome.{Result, ok, err}
use tool_permission_enforcer.Domain.Errors.{Error, trusted_session_error, key_error, value_error}
use tool_permission_enforcer.Domain.Models.{AgentSession, as_utc}
use tool_permission_enforcer.Settings.{PermissionProxySettings}
use tool_permission_enforcer.Security.Claims.{TrustedSessionClaims}
use tool_permission_enforcer.Security.Jwt.{Jwt, end_of_time, Decoded, claims, expired, invalid}

abbrev pub session_error : {A : Type 0} → String → String → Result Error A
session_error code message = err (trusted_session_error code message)

abbrev pub required_claims : List String
required_claims =
    "exp" ∷ "iat" ∷ "iss" ∷ "aud" ∷ "sub" ∷ "jti" ∷ "token_use" ∷ "agent_id" ∷ "user_id"
    ∷ "customer_id" ∷ []

-- `value = claims.get(key)`, where it is a text that is not empty
unfoldable pub required_string : Option Json → Result Error String
required_string (some (str s)) =
    if s == ""
    then session_error "INVALID_SESSION_TOKEN" "Session token claims are invalid"
    else ok s
required_string _ = session_error "INVALID_SESSION_TOKEN" "Session token claims are invalid"

is_session_use : Option Json → Bool
is_session_use (some (str s)) = s == "agent_session"
is_session_use _ = Bool.false

-- The handlers of `decode`.
unfoldable pub decoded_claims : Decoded → Result Error (Dict Json)
decoded_claims (claims c) = ok c
decoded_claims expired = session_error "SESSION_TOKEN_EXPIRED" "Session token has expired"
decoded_claims invalid = session_error "INVALID_SESSION_TOKEN" "Session token is invalid"

infixl 5 ◌>>=◌
abbrev ◌>>=◌ : {A B : Type 0} → Result Error A → (A → Result Error B) → Result Error B
ok a >>= f = f a
err e >>= f = err e

module _ (jwt : Jwt) where
  -- `datetime.fromtimestamp(value, tz=UTC)`
  timestamp : Option Json → Result Error ℕ
  timestamp none = err key_error
  timestamp (some (int (pos n))) = if ltb n end_of_time then ok (n * 1000000) else err value_error
  timestamp (some other) = elim (jwt.other_timestamp other) [
    | none ↦ err value_error
    | some t ↦ ok t
  ]

  unfoldable pub session_claims : Dict Json → Result Error TrustedSessionClaims
  unfolding is_session_use timestamp required_string
  session_claims c =
      if not (is_session_use (lookup "token_use" c))
      then session_error "INVALID_SESSION_TOKEN_USE" "Token is not an agent session token"
      else do
        session_id ← required_string (lookup "sub" c)
        token_jti ← required_string (lookup "jti" c)
        agent_id ← required_string (lookup "agent_id" c)
        user_id ← required_string (lookup "user_id" c)
        customer_id ← required_string (lookup "customer_id" c)
        issued_at ← timestamp (lookup "iat" c)
        expires_at ← timestamp (lookup "exp" c)
        ok (record {
          session_id = session_id;
          token_jti = token_jti;
          agent_id = agent_id;
          user_id = user_id;
          customer_id = customer_id;
          issued_at = issued_at;
          expires_at = expires_at;
        })

  module _ (settings : PermissionProxySettings) where
    -- PyJWT writes an instant in whole seconds.
    unfoldable pub issued_claims : AgentSession → Dict Json
    issued_claims s =
        ("iss", str settings.session_token_issuer)
        ∷ ("aud", str settings.session_token_audience)
        ∷ ("sub", str s.session_id)
        ∷ ("jti", str s.token_jti)
        ∷ ("token_use", str "agent_session")
        ∷ ("agent_id", str s.agent_id)
        ∷ ("user_id", str s.user_id)
        ∷ ("customer_id", str s.customer_id)
        ∷ ("iat", int (pos (as_utc s.created_at / 1000000)))
        ∷ ("nbf", int (pos (as_utc s.created_at / 1000000)))
        ∷ ("exp", int (pos (as_utc s.expires_at / 1000000)))
        ∷ []

    unfoldable pub issue : AgentSession → jwt.Token
    issue s = jwt.encode (issued_claims s) settings.session_signing_secret

    unfoldable pub decode : jwt.Token → ℕ → Result Error TrustedSessionClaims
    decode token now =
        decoded_claims (
          jwt.decode token settings.session_signing_secret "HS256" settings.session_token_audience
            settings.session_token_issuer required_claims (now / 1000000))
        >>= session_claims
