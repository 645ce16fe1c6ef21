-- ===== src/Scripts/MintDevToken/Accepted.antt =====
-- A token that the script printed is accepted by the proxy.
use tool_permission_enforcer.Base.{
  ℕ, ◌+◌, ◌*◌, ◌/◌, ◌≤◌, ◌<◌, String, Bool, true, false, Option, none, some, List, [], ◌∷◌, ◌≡◌,
  ◌≢◌, inl, inr, refl, arith, ◌==◌, string_eq, nat_eq, contains, all, Bool-cases,
}
use tool_permission_enforcer.Base.Dict.{lookup}
use tool_permission_enforcer.Base.Json.{ℤ, pos, negsuc}
use tool_permission_enforcer.Base.Outcome.{ok}
use tool_permission_enforcer.Settings.{PermissionProxySettings}
use tool_permission_enforcer.Security.Auth.{is_space, Principal, decode, issue_development_token}
use tool_permission_enforcer.Security.Auth.Scopes.{is_word, no_space}
use tool_permission_enforcer.Security.Auth.RoundTrip.{issue_development_token-decode}
use tool_permission_enforcer.Security.Jwt.{Jwt, KeyReply, end_of_time, ReadsBack}
use tool_permission_enforcer.Scripts.MintDevToken.{
  TokenDefaults, token_defaults, Args, subject_of, scopes_of, mint, mint_for, mint_with,
}

abbrev is_empty : String → Bool
is_empty s = s == ""

defaults_filled :
    (is_empty "dev:agent_support_001" ≡ false)
    × (is_empty "dev:trusted-host" ≡ false)
    × (is_empty "dev:administrator" ≡ false)
    × (is_empty "dev:auditor" ≡ false)
unfolding string_eq
defaults_filled = (refl, refl, refl, refl)

filled : (s : String) → is_empty s ≡ false → s ≢ ""
filled s h = ground arith

-- No default is empty.
default-filled :
    (use_ : String) (d : TokenDefaults)
    → lookup use_ token_defaults ≡ some d
    → is_empty d.subject ≡ false
default-filled use_ d h = ground (arith, defaults_filled)

subject_of-filled :
    (given : Option String) (d : TokenDefaults)
    → is_empty d.subject ≡ false
    → subject_of given d ≢ ""
unfolding subject_of
subject_of-filled none d h = filled d.subject h
subject_of-filled (some s) d h = elim (Bool-cases (s == "")) [
  | inl none_given ↦ rw none_given (filled d.subject h)
  | inr given ↦ rw given (filled s given)
]

-- The scopes that were given, if any.
abbrev pub given_scopes : Option (List String) → List String
given_scopes none = []
given_scopes (some ss) = ss

scopes_are_words :
    (is_word "tool:invoke" ≡ true)
    × (is_word "session:create" ≡ true)
    × (is_word "session:revoke" ≡ true)
    × (is_word "manifest:admin" ≡ true)
    × (is_word "audit:read" ≡ true)
unfolding is_word no_space is_space nat_eq native.Mathlib.Decide.ℕ_discrete string_eq
scopes_are_words = (refl, refl, refl, refl, refl)

default_scopes_are_words :
    (use_ : String) (d : TokenDefaults)
    → lookup use_ token_defaults ≡ some d
    → all is_word d.scopes ≡ true
default_scopes_are_words use_ d h = ground (arith, scopes_are_words)

scopes_of-words :
    (given : Option (List String)) (d : TokenDefaults)
    → all is_word d.scopes ≡ true
    → all is_word (given_scopes given) ≡ true
    → all is_word (scopes_of given d) ≡ true
scopes_of-words none d h g = h
scopes_of-words (some []) d h g = h
scopes_of-words (some (s ∷ ss)) d h g = g

lasts_a_minute :
    (now later ttl : ℕ)
    → 60 ≤ ttl
    → later < now + 59 * 1000000
    → later / 1000000 < (now + ttl * 1000000) / 1000000
lasts_a_minute now later ttl low soon = omega arith

ends_in_time :
    (now ttl : ℕ)
    → ttl ≤ 3600
    → now / 1000000 + 3600 < end_of_time
    → (now + ttl * 1000000) / 1000000 < end_of_time
ends_in_time now ttl high early = omega arith

module _ (jwt : Jwt) (settings : PermissionProxySettings)
    (provider : Option (jwt.Token → KeyReply)) where
  mint_for-ok :
      (args : Args) (z : ℤ) (now : ℕ) (token : jwt.Token)
      → mint_for jwt settings provider args z now ≡ ok token
      → (ttl : ℕ) × (z ≡ pos ttl)
        × (60 ≤ ttl)
        × (ttl ≤ 3600)
        × (mint_with jwt settings provider args ttl now (lookup args.token_type token_defaults)
            ≡ ok token)
  unfolding mint_for
  mint_for-ok args (negsuc n) now token h = absurd (ground arith)
  mint_for-ok args (pos ttl) now token h = (ttl, refl, ground arith, ground arith, ground arith)

  mint_with-ok :
      (args : Args) (ttl now : ℕ) (token : jwt.Token) (found : Option TokenDefaults)
      → mint_with jwt settings provider args ttl now found ≡ ok token
      → (d : TokenDefaults) × (found ≡ some d)
        × (issue_development_token jwt settings provider
              (subject_of args.subject d)
              args.token_type
              (scopes_of args.scopes d)
              ttl
              now
            ≡ ok token)
  unfolding mint_with
  mint_with-ok args ttl now token none h = absurd (ground arith)
  mint_with-ok args ttl now token (some d) h = (d, refl, h)

  -- A token that the script printed for scopes that are not empty and have no white space is accepted
  -- for 59 seconds: it is decoded to the type that was asked for, with the subject and the scopes that
  -- were given or else the defaults of the type. The conditions are that PyJWT reads back claims of
  -- texts and instants with the development secret, that the audience is not empty, and that the
  -- script runs more than an hour before the year 10000.
  pub mint-decode :
      (reads_back : ReadsBack jwt settings.dev_jwt_secret) (args : Args) (now later : ℕ)
      (token : jwt.Token)
      → mint jwt settings provider args now ≡ ok token
      → settings.oidc_audience ≢ ""
      → all is_word (given_scopes args.scopes) ≡ true
      → now ≤ later
      → later < now + 59 * 1000000
      → now / 1000000 + 3600 < end_of_time
      → (d : TokenDefaults) × (lookup args.token_type token_defaults ≡ some d)
        × ((p : Principal) × (decode jwt settings provider token later ≡ ok p)
            × (p.subject ≡ subject_of args.subject d)
            × (p.token_use ≡ args.token_type)
            × ((a : String) → contains p.scopes a ≡ contains (scopes_of args.scopes d) a))
  unfolding mint
  mint-decode reads_back args now later token minted audience words begun soon early =
      let (ttl, given, low, high, with_defaults) =
        mint_for-ok args args.ttl_seconds now token minted in
      let (d, found, issued) =
        mint_with-ok args ttl now token (lookup args.token_type token_defaults) with_defaults in
      (
        d,
        found,
        issue_development_token-decode jwt settings provider reads_back (subject_of args.subject d)
            args.token_type (scopes_of args.scopes d) ttl now later token issued audience
            (subject_of-filled args.subject d (default-filled args.token_type d found))
            (scopes_of-words args.scopes d (default_scopes_are_words args.token_type d found) words)
            (omega (arith, begun)) (lasts_a_minute now later ttl low soon)
            (ends_in_time now ttl high early),
      )
