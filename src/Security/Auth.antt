-- ===== src/Security/Auth.antt =====
-- services/permission_proxy/security/auth.py. Instants are in microseconds.
pub mod Scopes
pub mod RoundTrip
use Prim.Native.String.{◌++◌ as ◌<>◌}
use Prim.Native.Char.{code}
use tool_permission_enforcer.Base.{
  ℕ, ◌+◌, ◌*◌, ◌/◌, String, Bool, not, ◌&&◌, ◌||◌, Option, none, some, List, [], ◌∷◌, ◌++◌, ◌==◌,
  string_eq, nat_eq, leb, contains, all_where, order_by, if◌then◌else◌,
}
use tool_permission_enforcer.Base.Dict.{Dict, lookup}
use tool_permission_enforcer.Base.Json.{Json, str, arr, obj, int, pos, items}
use tool_permission_enforcer.Base.Outcome.{Result, ok, err}
use tool_permission_enforcer.Base.Text.{leb_text}
use tool_permission_enforcer.Domain.Enums.{agent_is_active}
use tool_permission_enforcer.Domain.Errors.{
  Error, authentication_error, authorization_error, value_error, type_error, jwk_client_error,
}
use tool_permission_enforcer.Domain.Models.{Agent}
use tool_permission_enforcer.Store.{Db}
use tool_permission_enforcer.Store.Agents
use tool_permission_enforcer.Settings.{PermissionProxySettings}
use tool_permission_enforcer.Security.Jwt.{
  Jwt, Decoded, claims, expired, invalid, KeyReply, key, malformed, client_error,
}

-- `scopes` is a set: only membership and the sorted list are used.
pub record Principal : Type 0 where
  pub subject : String
  pub token_use : String
  pub scopes : List String
  pub claims : Dict Json

-- The characters that `str.split()` splits at.
unfoldable pub is_space : ℕ → Bool
is_space c =
    (leb 9 c && leb c 13)
    || (leb 28 c && leb c 32)
    || c == 0x85
    || c == 0xa0
    || c == 0x1680
    || (leb 0x2000 c && leb c 0x200a)
    || c == 0x2028
    || c == 0x2029
    || c == 0x202f
    || c == 0x205f
    || c == 0x3000

abbrev pub push : String → List String → List String
push String.[] words = words
push (String.◌∷◌ c s) words = String.◌∷◌ c s ∷ words

-- The word that a text begins with, and the words after it.
pub split_from : String → String × List String
split_from String.[] = (String.[], [])
split_from (String.◌∷◌ c s) =
    let (word, words) = split_from s in
    if is_space (code c) then (String.[], push word words) else (String.◌∷◌ c word, words)

unfoldable pub split : String → List String
unfolding split_from is_space nat_eq
split s = let (word, words) = split_from s in push word words

abbrev texts : List Json → List String
texts [] = []
texts (str s ∷ js) = if s == "" then texts js else s ∷ texts js
texts (_ ∷ js) = texts js

pub scope_words : Option Json → List String
scope_words (some (str s)) = split s
scope_words _ = []

pub scp_texts : Option Json → List String
scp_texts (some (arr xs)) = texts (items xs)
scp_texts _ = []

-- A set, as the list of its members.
pub distinct : List String → List String
distinct [] = []
distinct (s ∷ ss) = let rest = distinct ss in if contains rest s then rest else s ∷ rest

unfoldable pub parse_scopes : Dict Json → List String
unfolding distinct scope_words scp_texts
parse_scopes c = distinct (scope_words (lookup "scope" c) ++ scp_texts (lookup "scp" c))

abbrev pub token_uses : List String
token_uses = "agent" ∷ "host" ∷ "admin" ∷ "auditor" ∷ []

abbrev pub required_claims : List String
required_claims = "exp" ∷ "iat" ∷ "iss" ∷ "aud" ∷ "sub" ∷ "token_use" ∷ []

abbrev auth_error : {A : Type 0} → String → String → Result Error A
auth_error code message = err (authentication_error code message)

-- The handlers of `decode`.
unfoldable pub decoded_claims : Decoded → Result Error (Dict Json)
decoded_claims (claims c) = ok c
decoded_claims expired = auth_error "ACCESS_TOKEN_EXPIRED" "Access token has expired"
decoded_claims invalid = auth_error "INVALID_ACCESS_TOKEN" "Access token is invalid"

-- The token use, once the subject is known. A list or a dictionary cannot be looked up in a set.
principal_with : String → Option Json → Dict Json → Result Error Principal
principal_with subject (some (str use_)) c =
    if contains token_uses use_
    then ok (record { subject = subject; token_use = use_; scopes = parse_scopes c; claims = c })
    else auth_error "INVALID_TOKEN_USE" "Access token use is not supported"
principal_with subject (some (arr xs)) c = err type_error
principal_with subject (some (obj fs)) c = err type_error
principal_with subject _ c = auth_error "INVALID_TOKEN_USE" "Access token use is not supported"

principal_from : Option Json → Dict Json → Result Error Principal
unfolding principal_with
principal_from (some (str subject)) c =
    if subject == ""
    then auth_error "INVALID_ACCESS_TOKEN" "Access token subject is invalid"
    else principal_with subject (lookup "token_use" c) c
principal_from _ c = auth_error "INVALID_ACCESS_TOKEN" "Access token subject is invalid"

unfoldable pub principal_of : Dict Json → Result Error Principal
unfolding principal_from
principal_of c = principal_from (lookup "sub" c) c

-- `' '.join(…)`
abbrev pub join_words : List String → String
join_words [] = ""
join_words (w ∷ []) = w
join_words (w ∷ v ∷ ws) = w <> (" " <> join_words (v ∷ ws))

module _ (jwt : Jwt) (settings : PermissionProxySettings)
    (provider : Option (jwt.Token → KeyReply)) where
  abbrev read_with : String → String → jwt.Token → ℕ → Result Error (Dict Json)
  read_with secret algorithm token now = decoded_claims (
      jwt.decode token secret algorithm settings.oidc_audience settings.oidc_issuer.text
        required_claims (now / 1000000))

  -- The claims, by the development secret or by a key of the provider.
  unfoldable pub read_claims : jwt.Token → ℕ → Result Error (Dict Json)
  read_claims token now =
      if settings.dev_auth_enabled
      then read_with settings.dev_jwt_secret "HS256" token now
      else elim provider [
        | none ↦
            auth_error "OIDC_CONFIGURATION_ERROR"
              "The production signing-key provider is unavailable"
        | some find ↦ elim (find token) [
          | key k ↦ read_with k settings.oidc_algorithm token now
          | malformed ↦ auth_error "INVALID_ACCESS_TOKEN" "Access token is invalid"
          | client_error ↦ err jwk_client_error
        ]
      ]

  unfoldable pub decode : jwt.Token → ℕ → Result Error Principal
  decode token now = elim (read_claims token now) [ ok c ↦ principal_of c | err e ↦ err e ]

  unfoldable pub development_claims : String → String → List String → ℕ → ℕ → Dict Json
  development_claims subject token_use scopes ttl_seconds now =
      ("iss", str settings.oidc_issuer.text)
      ∷ ("aud", str settings.oidc_audience)
      ∷ ("sub", str subject)
      ∷ ("token_use", str token_use)
      ∷ ("scope", str (join_words (order_by leb_text scopes)))
      ∷ ("iat", int (pos (now / 1000000)))
      ∷ ("nbf", int (pos (now / 1000000)))
      ∷ ("exp", int (pos ((now + ttl_seconds * 1000000) / 1000000)))
      ∷ []

  unfoldable pub issue_development_token :
      String → String → List String → ℕ → ℕ → Result Error jwt.Token
  issue_development_token subject token_use scopes ttl_seconds now =
      if not settings.dev_auth_enabled
      then err (authorization_error "DEV_AUTH_DISABLED" "Development token issuance is disabled")
      else if not (contains token_uses token_use)
      then err value_error
      else ok (
          jwt.encode (development_claims subject token_use scopes ttl_seconds now)
            settings.dev_jwt_secret)

-- `', '.join(…)`
abbrev join_names : List String → String
join_names [] = ""
join_names (w ∷ []) = w
join_names (w ∷ v ∷ ws) = w <> (", " <> join_names (v ∷ ws))

unfoldable pub require_scopes : Principal → List String → Result Error (Unit {0})
require_scopes principal required =
    elim (all_where (λ s. not (contains principal.scopes s)) required) [
      | [] ↦ ok tt
      | s ∷ missing ↦ err (
          authorization_error "INSUFFICIENT_SCOPE"
            ("Required scope is missing: " <> join_names (order_by leb_text (s ∷ missing))))
    ]

unfoldable pub resolve_active_agent : Principal → Db → Result Error Agent
resolve_active_agent principal db =
    if not (principal.token_use == "agent")
    then err (authorization_error "AGENT_TOKEN_REQUIRED" "An agent access token is required")
    else elim (Agents.get_by_oidc_subject principal.subject db) [
      | none ↦ err (
          authorization_error "AGENT_IDENTITY_NOT_REGISTERED"
            "The agent identity is not registered")
      | some agent ↦
          if agent_is_active agent.status
          then ok agent
          else err (authorization_error "AGENT_NOT_ACTIVE" "The agent identity is not active")
    ]
