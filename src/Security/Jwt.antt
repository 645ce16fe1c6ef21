-- ===== src/Security/Jwt.antt =====
-- What the program uses of PyJWT: tokens, and the keys of a JWKS provider. `decode` is called with
-- the key, the one allowed algorithm, audience, issuer, required claims and the time in seconds.
use tool_permission_enforcer.Base.{
  ℕ, ◌≤◌, ◌<◌, String, Bool, true, false, Option, none, some, List, [], ◌∷◌, ◌≡◌, ◌≢◌, all,
  contains, string_eq,
}
use tool_permission_enforcer.Base.Dict.{Dict, lookup, has_key, keys_differ}
use tool_permission_enforcer.Base.Json.{Json, int, str, pos}

-- The claims, `ExpiredSignatureError`, or another `InvalidTokenError`.
pub data Decoded : Type 0 where
  claims : Dict Json → Decoded
  expired invalid : Decoded

-- A key, an `InvalidTokenError` of a malformed token, or a `PyJWKClientError`, which is no
-- `InvalidTokenError`: no key fits, or the provider is not reached.
pub data KeyReply : Type 0 where
  key : String → KeyReply
  malformed client_error : KeyReply

pub record Jwt : Type 1 where
  pub Token : Type 0
  pub encode : Dict Json → String → Token
  pub decode : Token → String → String → String → String → List String → ℕ → Decoded
  -- `datetime.fromtimestamp` of a claim that is no natural number of seconds
  pub other_timestamp : Json → Option ℕ

-- The second in which the year 10000 begins. `datetime` ends before it.
abbrev pub end_of_time : ℕ
end_of_time = 253402300800

-- A claim that the program writes: a text, or an instant under a name for one.
abbrev is_plain : String × Json → Bool
is_plain (name, str s) = true
is_plain (name, int (pos n)) = contains ("iat" ∷ "nbf" ∷ "exp" ∷ []) name
is_plain (name, _) = false

-- PyJWT takes `sub` and `jti` only as texts.
abbrev is_identifier : Option Json → Bool
is_identifier none = true
is_identifier (some (str s)) = true
is_identifier (some _) = false

-- A token with plain claims is read back with the secret of its signature, if it holds what is
-- required, for the same audience, which is not empty, and the same issuer, between its not-before
-- instant and its expiry, which is before the year 10000.
abbrev pub ReadsBack : Jwt → String → Type 0
ReadsBack jwt secret =
    (c : Dict Json) (audience issuer : String) (required : List String) (now iat nbf exp : ℕ)
    → all is_plain c ≡ true
    → keys_differ c ≡ true
    → is_identifier (lookup "sub" c) ≡ true
    → is_identifier (lookup "jti" c) ≡ true
    → all (λ k. has_key k c) required ≡ true
    → audience ≢ ""
    → lookup "aud" c ≡ some (str audience)
    → lookup "iss" c ≡ some (str issuer)
    → lookup "iat" c ≡ some (int (pos iat))
    → lookup "nbf" c ≡ some (int (pos nbf))
    → lookup "exp" c ≡ some (int (pos exp))
    → iat ≤ now
    → nbf ≤ now
    → now < exp
    → exp < end_of_time
    → jwt.decode (jwt.encode c secret) secret "HS256" audience issuer required now ≡ claims c
