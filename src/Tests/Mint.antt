-- ===== src/Tests/Mint.antt =====
-- Development tokens: one that the service issues, and one that the script prints.
use tool_permission_enforcer.Base.{
  String, true, none, some, List, [], ◌∷◌, ◌≡◌, ◌≢◌, refl, arith, string_eq, nat_eq, contains, all,
}
use tool_permission_enforcer.Base.Dict.{Dict, lookup}
use tool_permission_enforcer.Base.Json.{Json, pos}
use tool_permission_enforcer.Base.Outcome.{ok}
use tool_permission_enforcer.Security.Auth.{
  Principal, decode, development_claims, issue_development_token,
}
use tool_permission_enforcer.Security.Auth.Scopes.{is_word}
use tool_permission_enforcer.Security.Auth.RoundTrip.{issue_development_token-decode}
use tool_permission_enforcer.Scripts.MintDevToken.{
  TokenDefaults, token_defaults, Args, subject_of, scopes_of, mint,
}
use tool_permission_enforcer.Scripts.MintDevToken.Accepted.{mint-decode}
use tool_permission_enforcer.Tests.Tokens.{settings, jwt, jwt-ReadsBack, audiences_filled}

abbrev host_scopes : List String
host_scopes = "session:revoke" ∷ "session:create" ∷ []

abbrev host_token : Dict Json × String
host_token = (
  development_claims jwt settings none "dev:host" "host" host_scopes 300 500,
  settings.dev_jwt_secret,
)

host_is_issued :
    issue_development_token jwt settings none "dev:host" "host" host_scopes 300 500 ≡ ok host_token
unfolding issue_development_token string_eq
host_is_issued = refl

abbrev host_name : String
host_name = "dev:host"

host_is_filled : host_name ≢ ""
host_is_filled h = cc

host_words : all is_word host_scopes ≡ true
unfolding is_word tool_permission_enforcer.Security.Auth.Scopes.no_space
    tool_permission_enforcer.Security.Auth.is_space nat_eq native.Mathlib.Decide.ℕ_discrete
    string_eq
host_words = refl

issue_development_token-decode_example :
    (p : Principal) × (decode jwt settings none host_token 900 ≡ ok p)
    × (p.subject ≡ "dev:host")
    × (p.token_use ≡ "host")
    × ((a : String) → contains p.scopes a ≡ contains host_scopes a)
issue_development_token-decode_example =
    issue_development_token-decode jwt settings none (jwt-ReadsBack settings.dev_jwt_secret)
      "dev:host" "host" host_scopes 300 500 900 host_token host_is_issued audiences_filled.0
      host_is_filled host_words (omega arith) (omega arith) (omega arith)

abbrev args : Args
args = record { token_type = "auditor"; subject = some ""; scopes = none; ttl_seconds = pos 900 }

abbrev auditor_token : Dict Json × String
auditor_token = (
  development_claims jwt settings none "dev:auditor" "auditor" ("audit:read" ∷ []) 900 500,
  settings.dev_jwt_secret,
)

auditor_is_minted : mint jwt settings none args 500 ≡ ok auditor_token
unfolding mint subject_of issue_development_token string_eq
auditor_is_minted = refl

mint-decode_example :
    (d : TokenDefaults) × (lookup "auditor" token_defaults ≡ some d)
    × ((p : Principal) × (decode jwt settings none auditor_token 59000000 ≡ ok p)
        × (p.subject ≡ subject_of (some "") d)
        × (p.token_use ≡ "auditor")
        × ((a : String) → contains p.scopes a ≡ contains (scopes_of none d) a))
mint-decode_example =
    mint-decode jwt settings none (jwt-ReadsBack settings.dev_jwt_secret) args 500 59000000
      auditor_token auditor_is_minted audiences_filled.0 refl (omega arith) (omega arith)
      (omega arith)
