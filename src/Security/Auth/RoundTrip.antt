-- ===== src/Security/Auth/RoundTrip.antt =====
-- A development token is decoded to the identity it was issued for.
use mathlib.Core.List.{append-nil}
use tool_permission_enforcer.Base.{
  ℕ, ◌+◌, ◌*◌, ◌/◌, ◌≤◌, ◌<◌, String, true, Option, some, List, ◌≡◌, ◌≢◌, ◌∙◌, refl, arith,
  string_eq, contains, order_by, all,
}
use tool_permission_enforcer.Base.Lists.{all-order_by}
use tool_permission_enforcer.Base.Dict.{Dict, lookup}
use tool_permission_enforcer.Base.Json.{Json, str}
use tool_permission_enforcer.Base.Outcome.{ok}
use tool_permission_enforcer.Base.Text.{leb_text}
use tool_permission_enforcer.Settings.{PermissionProxySettings}
use tool_permission_enforcer.Security.Jwt.{Jwt, KeyReply, end_of_time, ReadsBack}
use tool_permission_enforcer.Security.Auth.{
  Principal, scope_words, scp_texts, parse_scopes, token_uses, required_claims, decoded_claims,
  principal_of, read_claims, decode, development_claims, issue_development_token,
}
use tool_permission_enforcer.Security.Auth.Scopes.{
  is_word, split-join_words, contains-distinct, contains-order_by,
}

module _ (jwt : Jwt) (settings : PermissionProxySettings)
    (provider : Option (jwt.Token → KeyReply)) where
  module _ (subject token_use : String) (scopes : List String) (ttl now : ℕ) where
    abbrev c : Dict Json
    c = development_claims jwt settings provider subject token_use scopes ttl now

    -- The scopes that are read are the ones that were written.
    scopes_read :
        all is_word scopes ≡ true → (a : String) → contains (parse_scopes c) a ≡ contains scopes a
    unfolding parse_scopes development_claims scope_words scp_texts string_eq
    scopes_read words a =
        rw
          (
            split-join_words (order_by leb_text scopes)
                (all-order_by is_word leb_text scopes ∙ words),
            append-nil,
          )
          (contains-distinct (order_by leb_text scopes) a ∙ contains-order_by leb_text scopes a)

    issued_lem :
        (token : jwt.Token)
        → issue_development_token jwt settings provider subject token_use scopes ttl now ≡ ok token
        → (settings.dev_auth_enabled ≡ true)
          × (contains token_uses token_use ≡ true)
          × (token ≡ jwt.encode c settings.dev_jwt_secret)
    unfolding issue_development_token
    issued_lem token h = (ground arith, ground arith, ground arith)

    principal : Principal
    principal = record {
      subject = subject;
      token_use = token_use;
      scopes = parse_scopes c;
      claims = c;
    }

    identity_claims :
        (lookup "sub" c ≡ some (str subject)) × (lookup "token_use" c ≡ some (str token_use))
    unfolding development_claims string_eq
    identity_claims = (refl, refl)

    principal_lem :
        subject ≢ "" → contains token_uses token_use ≡ true → principal_of c ≡ ok principal
    unfolding principal principal_of
    principal_lem filled known = ground (arith, identity_claims.0, identity_claims.1)

    read_lem :
        (reads_back : ReadsBack jwt settings.dev_jwt_secret) (later : ℕ)
        → settings.dev_auth_enabled ≡ true
        → settings.oidc_audience ≢ ""
        → now / 1000000 ≤ later / 1000000
        → later / 1000000 < (now + ttl * 1000000) / 1000000
        → (now + ttl * 1000000) / 1000000 < end_of_time
        → read_claims jwt settings provider (jwt.encode c settings.dev_jwt_secret) later ≡ ok c
    unfolding read_claims decoded_claims development_claims string_eq
    read_lem reads_back later enabled audience begun lasts ends =
        let same =
          reads_back c settings.oidc_audience settings.oidc_issuer.text required_claims
            (later / 1000000) (now / 1000000) (now / 1000000) ((now + ttl * 1000000) / 1000000) refl
            refl refl refl refl audience refl refl refl refl refl begun begun lasts ends in
        rw enabled rw same refl

  decode_lem :
      (token : jwt.Token) (later : ℕ) (d : Dict Json) (p : Principal)
      → read_claims jwt settings provider token later ≡ ok d
      → principal_of d ≡ ok p
      → decode jwt settings provider token later ≡ ok p
  unfolding decode
  decode_lem token later d p read named = ground arith

  -- A development token that was issued for a subject that is not empty and for scopes that are not
  -- empty and have no white space is decoded, until the second in which it expires, to this subject,
  -- this use and a set of scopes with the same members. The conditions are that PyJWT reads
  -- back claims of texts and instants with the development secret, that the audience is not empty,
  -- and that the token expires before the year 10000.
  pub issue_development_token-decode :
      (reads_back : ReadsBack jwt settings.dev_jwt_secret) (subject token_use : String)
      (scopes : List String) (ttl now later : ℕ) (token : jwt.Token)
      → issue_development_token jwt settings provider subject token_use scopes ttl now ≡ ok token
      → settings.oidc_audience ≢ ""
      → subject ≢ ""
      → all is_word scopes ≡ true
      → now / 1000000 ≤ later / 1000000
      → later / 1000000 < (now + ttl * 1000000) / 1000000
      → (now + ttl * 1000000) / 1000000 < end_of_time
      → (p : Principal) × (decode jwt settings provider token later ≡ ok p)
        × (p.subject ≡ subject)
        × (p.token_use ≡ token_use)
        × ((a : String) → contains p.scopes a ≡ contains scopes a)
  unfolding principal
  issue_development_token-decode reads_back subject token_use scopes ttl now later token issued
        audience filled words begun lasts ends =
      let (enabled, known, is_encoded) = issued_lem subject token_use scopes ttl now token issued in
      let read =
        read_lem subject token_use scopes ttl now reads_back later enabled audience begun lasts
          ends in
      let named = principal_lem subject token_use scopes ttl now filled known in
      (
        principal subject token_use scopes ttl now,
        rw is_encoded (decode_lem (jwt.encode _ settings.dev_jwt_secret) later _ _ read named),
        refl,
        refl,
        scopes_read subject token_use scopes ttl now words,
      )
