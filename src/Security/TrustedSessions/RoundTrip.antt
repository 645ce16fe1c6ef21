-- ===== src/Security/TrustedSessions/RoundTrip.antt =====
-- A session that was created validates.
use Prim.Native.String.{count}
use text.Mathlib.TextLemmas.{length-append}
use tool_permission_enforcer.Base.{
  ℕ, ◌+◌, ◌*◌, ◌/◌, ◌≤◌, ◌<◌, String, true, false, some, [], ◌∷◌, ◌++◌, ◌≡◌, ◌≢◌, refl, ap, arith,
  string_eq, any, ltb,
}
use tool_permission_enforcer.Base.Json.{Json}
use tool_permission_enforcer.Store.Sessions.{clashes}
use tool_permission_enforcer.Store.Sessions.Rows.{find-append}
use tool_permission_enforcer.Base.Outcome.{ok}
use tool_permission_enforcer.Domain.Models.{AgentSession, as_utc}
use tool_permission_enforcer.Store.{Db}
use tool_permission_enforcer.Store.Agents
use tool_permission_enforcer.Store.Sessions
use tool_permission_enforcer.Settings.{PermissionProxySettings}
use tool_permission_enforcer.Security.Claims.{TrustedSessionClaims}
use tool_permission_enforcer.Security.Jwt.{Jwt, end_of_time, ReadsBack}
use tool_permission_enforcer.Security.TrustedSessions.{
  validate, create, new_session, NewSession, requested_ttl, CreatedTrustedSession, agent_can_act,
}
use tool_permission_enforcer.Security.TrustedSessions.Codec
use tool_permission_enforcer.Security.TrustedSessions.Live.{IsLive, acting_agent, validate_iff}

-- The claims of the token of a new session, with its instants in whole seconds.
abbrev pub claims_of : AgentSession → TrustedSessionClaims
claims_of s = record {
  session_id = s.session_id;
  token_jti = s.token_jti;
  agent_id = s.agent_id;
  user_id = s.user_id;
  customer_id = s.customer_id;
  issued_at = as_utc s.created_at / 1000000 * 1000000;
  expires_at = as_utc s.expires_at / 1000000 * 1000000;
}

required_string-some : (s : String) → s ≢ "" → Codec.required_string (some (Json.str s)) ≡ ok s
unfolding Codec.required_string
required_string-some s filled = ground arith

below_of_seconds : (a b : ℕ) → a / 1000000 < b / 1000000 → a < b
below_of_seconds a b h = omega arith

seconds_mono : (a b : ℕ) → a ≤ b → a / 1000000 ≤ b / 1000000
seconds_mono a b h = omega arith

in_time : (n : ℕ) → n < end_of_time → ltb n end_of_time ≡ true
in_time n h = ground arith

id_is_filled :
    (settings : PermissionProxySettings) (new : NewSession) (session_hex jti_hex : String) (now : ℕ)
    → (new_session settings new session_hex jti_hex now).session_id ≢ ""
unfolding new_session
id_is_filled settings new session_hex jti_hex now h =
    absurd (omega (arith, length-append "sess_" session_hex, ap count h))

module _ (jwt : Jwt) (settings : PermissionProxySettings) where
  issue-decode :
      (reads_back : ReadsBack jwt settings.session_signing_secret) (s : AgentSession) (now : ℕ)
      → settings.session_token_audience ≢ ""
      → s.session_id ≢ ""
      → s.token_jti ≢ ""
      → s.agent_id ≢ ""
      → s.user_id ≢ ""
      → s.customer_id ≢ ""
      → as_utc s.created_at / 1000000 ≤ now / 1000000
      → now / 1000000 < as_utc s.expires_at / 1000000
      → as_utc s.expires_at / 1000000 < end_of_time
      → Codec.decode jwt settings (Codec.issue jwt settings s) now ≡ ok (claims_of s)
  unfolding string_eq Codec.decode Codec.issue Codec.issued_claims Codec.session_claims
      Codec.decoded_claims
  issue-decode reads_back s now audience id jti agent user customer begun lasts ends =
      let same =
        reads_back (Codec.issued_claims jwt settings s) settings.session_token_audience
          settings.session_token_issuer Codec.required_claims (now / 1000000)
          (as_utc s.created_at / 1000000) (as_utc s.created_at / 1000000)
          (as_utc s.expires_at / 1000000) refl refl refl refl refl audience refl refl refl refl refl
          begun begun lasts ends in
      let created = in_time (as_utc s.created_at / 1000000) (omega (arith, begun, lasts, ends)) in
      let expires = in_time (as_utc s.expires_at / 1000000) ends in
      rw same rw (required_string-some s.session_id id) rw (required_string-some s.token_jti jti) rw
        (required_string-some s.agent_id agent) rw (required_string-some s.user_id user) rw
        (required_string-some s.customer_id customer) rw created rw expires refl

  -- What a `create` that succeeded did.
  create-row :
      (new : NewSession) (session_hex jti_hex : String) (now : ℕ) (db db' : Db)
      (created : CreatedTrustedSession jwt.Token)
      → create jwt settings new session_hex jti_hex now db ≡ (ok created, db')
      → let s = new_session settings new session_hex jti_hex now in
        (created.session_token ≡ Codec.issue jwt settings s)
        × (db'.sessions ≡ db.sessions ++ (s ∷ []))
        × (db'.agents ≡ db.agents)
        × (any (clashes s) db.sessions ≡ false)
        × (agent_can_act (Agents.get new.agent_id db) ≡ true)
  unfolding create Sessions.add
  create-row new session_hex jti_hex now db db' created h =
      (ground arith, ground arith, ground arith, ground arith, ground arith)

  live-validate :
      (token : jwt.Token) (expected : String) (now : ℕ) (db : Db) (claims : TrustedSessionClaims)
      → Codec.decode jwt settings token now ≡ ok claims
      → IsLive claims expected now db
      → validate jwt settings token expected now db ≡ (ok claims, db)
  live-validate token expected now db claims decoded live =
      (validate_iff jwt settings token expected now db claims).1 (decoded, live)

  new-IsLive :
      (new : NewSession) (session_hex jti_hex : String) (now later : ℕ) (db db' : Db)
      → (db'.sessions ≡ db.sessions ++ (new_session settings new session_hex jti_hex now ∷ []))
      → (db'.agents ≡ db.agents)
      → (any (clashes (new_session settings new session_hex jti_hex now)) db.sessions ≡ false)
      → (agent_can_act (Agents.get new.agent_id db) ≡ true)
      → later / 1000000 < (now + requested_ttl settings new * 1000000) / 1000000
      → IsLive (claims_of (new_session settings new session_hex jti_hex now)) new.agent_id later db'
  unfolding Agents.get Sessions.get new_session
  new-IsLive new session_hex jti_hex now later db db' rows agents fresh acts lasts =
      let s = new_session settings new session_hex jti_hex now in
      let (actor, known, active) = acting_agent (Agents.get new.agent_id db) acts in
      record {
        session = s;
        agent = actor;
        expected_agent = refl;
        stored = rw rows (find-append s db.sessions fresh);
        same_jti = refl;
        is_active = refl;
        not_expired = below_of_seconds later (now + requested_ttl settings new * 1000000) lasts;
        same_agent = refl;
        same_user = refl;
        same_customer = refl;
        known = rw agents known;
        agent_acts = active;
      }

  -- The token of a new session, of which no identifier is empty, validates for its agent until the
  -- second in which it expires: `validate` returns the identifiers that `create` was given. The
  -- conditions are that PyJWT reads back claims of texts and instants with the secret for sessions,
  -- that the audience is not empty, and that the session expires before the year 10000.
  pub create-validate :
      (reads_back : ReadsBack jwt settings.session_signing_secret) (new : NewSession)
      (session_hex jti_hex : String) (now later : ℕ) (db db' : Db)
      (created : CreatedTrustedSession jwt.Token)
      → create jwt settings new session_hex jti_hex now db ≡ (ok created, db')
      → settings.session_token_audience ≢ ""
      → jti_hex ≢ ""
      → new.agent_id ≢ ""
      → new.user_id ≢ ""
      → new.customer_id ≢ ""
      → now ≤ later
      → later / 1000000 < (now + requested_ttl settings new * 1000000) / 1000000
      → (now + requested_ttl settings new * 1000000) / 1000000 < end_of_time
      → validate jwt settings created.session_token new.agent_id later db'
        ≡ (ok (claims_of (new_session settings new session_hex jti_hex now)), db')
  unfolding new_session
  create-validate reads_back new session_hex jti_hex now later db db' created h audience jti agent
        user customer begun lasts ends =
      let s = new_session settings new session_hex jti_hex now in
      let (token_is, rows, agents, fresh, acts) =
        create-row new session_hex jti_hex now db db' created h in
      rw token_is (
        live-validate (Codec.issue jwt settings s) new.agent_id later db' (claims_of s)
          (issue-decode reads_back s later audience
            (id_is_filled settings new session_hex jti_hex now) jti agent user customer
            (seconds_mono now later begun) lasts ends)
          (new-IsLive new session_hex jti_hex now later db db' rows agents fresh acts lasts))
