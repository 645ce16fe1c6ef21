-- ===== src/Scripts/MintDevToken.antt =====
-- scripts/mint_dev_token.py. The arguments are parsed by argparse, which lets only the keys of
-- `TOKEN_DEFAULTS` pass as a type.
pub mod Accepted
use tool_permission_enforcer.Base.{
  ℕ, String, Bool, true, false, ◌||◌, Option, none, some, List, [], ◌∷◌, ◌==◌, string_eq, ltb,
  if◌then◌else◌,
}
use tool_permission_enforcer.Base.Dict.{Dict, lookup}
use tool_permission_enforcer.Base.Json.{ℤ, pos, negsuc}
use tool_permission_enforcer.Base.Outcome.{Result, ok, err}
use tool_permission_enforcer.Domain.Errors.{Error, key_error, value_error}
use tool_permission_enforcer.Settings.{PermissionProxySettings}
use tool_permission_enforcer.Security.Auth.{issue_development_token}
use tool_permission_enforcer.Security.Jwt.{Jwt, KeyReply}

pub record TokenDefaults : Type 0 where
  pub subject : String
  pub scopes : List String

abbrev pub token_defaults : Dict TokenDefaults
token_defaults =
    ("agent", record { subject = "dev:agent_support_001"; scopes = "tool:invoke" ∷ [] })
    ∷ (
      "host",
      record { subject = "dev:trusted-host"; scopes = "session:create" ∷ "session:revoke" ∷ [] },
    )
    ∷ (
      "admin",
      record {
        subject = "dev:administrator";
        scopes = "session:create" ∷ "session:revoke" ∷ "manifest:admin" ∷ "audit:read" ∷ [];
      },
    )
    ∷ ("auditor", record { subject = "dev:auditor"; scopes = "audit:read" ∷ [] })
    ∷ []

-- An option that is left out is none; `--scope` may be given more than once.
pub record Args : Type 0 where
  pub token_type : String
  pub subject : Option String
  pub scopes : Option (List String)
  pub ttl_seconds : ℤ

-- `args.subject or defaults["subject"]`: an empty text counts as none.
unfoldable pub subject_of : Option String → TokenDefaults → String
subject_of none defaults = defaults.subject
subject_of (some s) defaults = if s == "" then defaults.subject else s

-- `set(args.scopes) if args.scopes else defaults["scopes"]`
abbrev pub scopes_of : Option (List String) → TokenDefaults → List String
scopes_of (some (s ∷ ss)) defaults = s ∷ ss
scopes_of _ defaults = defaults.scopes

module _ (jwt : Jwt) (settings : PermissionProxySettings)
    (provider : Option (jwt.Token → KeyReply)) where
  mint_with : Args → ℕ → ℕ → Option TokenDefaults → Result Error jwt.Token
  mint_with args ttl now none = err key_error
  mint_with args ttl now (some defaults) =
      issue_development_token jwt settings provider (subject_of args.subject defaults)
        args.token_type (scopes_of args.scopes defaults) ttl now

  mint_for : Args → ℤ → ℕ → Result Error jwt.Token
  unfolding mint_with
  mint_for args (pos ttl) now =
      if ltb ttl 60 || ltb 3600 ttl
      then err value_error
      else mint_with args ttl now (lookup args.token_type token_defaults)
  mint_for args (negsuc n) now = err value_error

  -- `main`, with the token that it prints
  unfoldable pub mint : Args → ℕ → Result Error jwt.Token
  unfolding mint_for
  mint args now = mint_for args args.ttl_seconds now
