-- ===== src/Tests/Identity.antt =====
-- The properties of configuration and sessions.
use tool_permission_enforcer.Base.{
  ℕ, String, Bool, true, false, ◌&&◌, Option, none, some, List, [], ◌∷◌, ◌≡◌, ◌≢◌, ◌↔◌, ◌⊎◌, refl,
  arith, string_eq, ◌==◌, all, leb, ltb, contains, if◌then◌else◌,
}
use tool_permission_enforcer.Base.Dict.{Dict}
use tool_permission_enforcer.Base.Json.{Json}
use tool_permission_enforcer.Base.Outcome.{ok}
use tool_permission_enforcer.Store.{Db}
use tool_permission_enforcer.Settings.{PermissionProxySettings, Environment, validate_proxy}
use tool_permission_enforcer.Settings.Production.{IsBounded, IsHardened, validate_proxy_iff}
use tool_permission_enforcer.Domain.Models.{Agent, AgentSession}
use tool_permission_enforcer.Security.Claims.{TrustedSessionClaims}
use tool_permission_enforcer.Security.TrustedSessions.{
  CreatedTrustedSession, NewSession, new_session, create, validate, revoke,
}
use tool_permission_enforcer.Security.TrustedSessions.Codec
use tool_permission_enforcer.Security.TrustedSessions.Live.{IsLive, validate_iff}
use tool_permission_enforcer.Security.TrustedSessions.Revoked.{
  revoke_one, create_one, after_all, revoke-not-validate,
}
use tool_permission_enforcer.Security.TrustedSessions.RoundTrip.{claims_of, create-validate}
use tool_permission_enforcer.Seed.Data.{seed_agent_id}
use tool_permission_enforcer.Tests.Fixture as F
use tool_permission_enforcer.Tests.Tokens.{
  settings, jwt, jwt-ReadsBack, audiences_filled, old_token,
}

validate_proxy_iff_example :
    (validate_proxy settings ≡ ok settings)
    ↔ (IsBounded settings × (settings.app_env ≡ Environment.production → IsHardened settings))
validate_proxy_iff_example = validate_proxy_iff settings

local_settings_are_valid : validate_proxy settings ≡ ok settings
unfolding tool_permission_enforcer.Settings.validate_proxy
    tool_permission_enforcer.Settings.fields_are_valid
    tool_permission_enforcer.Settings.timeout_is_valid
    tool_permission_enforcer.Settings.check_production tool_permission_enforcer.Base.Text.len
    tool_permission_enforcer.Base.string_eq
local_settings_are_valid = refl

abbrev new : NewSession
new = record {
  agent_id = seed_agent_id;
  user_id = "user_1";
  customer_id = "customer_1001";
  created_by_subject = "host";
  ttl_seconds = some 60;
}

abbrev created_db : Db
created_db = (create jwt settings new "2" "jti_2" 5000000 F.db).1

abbrev created : CreatedTrustedSession (Dict Json × String)
created = record {
  session_id = "sess_2";
  session_token = Codec.issue jwt settings (new_session settings new "2" "jti_2" 5000000);
  agent_id = seed_agent_id;
  user_id = "user_1";
  customer_id = "customer_1001";
  expires_at = 65000000;
}

session_is_created : create jwt settings new "2" "jti_2" 5000000 F.db ≡ (ok created, created_db)
unfolding tool_permission_enforcer.Base.string_eq
    tool_permission_enforcer.Security.TrustedSessions.create
    tool_permission_enforcer.Security.TrustedSessions.validate
    tool_permission_enforcer.Security.TrustedSessions.check_persisted
    tool_permission_enforcer.Security.TrustedSessions.new_session
    tool_permission_enforcer.Security.TrustedSessions.revoke
    tool_permission_enforcer.Security.TrustedSessions.Codec.issue
    tool_permission_enforcer.Security.TrustedSessions.Codec.issued_claims
    tool_permission_enforcer.Security.TrustedSessions.Codec.decode
    tool_permission_enforcer.Security.TrustedSessions.Codec.decoded_claims
    tool_permission_enforcer.Security.TrustedSessions.Codec.session_claims
    tool_permission_enforcer.Security.TrustedSessions.Codec.required_string
    tool_permission_enforcer.Store.Sessions.get tool_permission_enforcer.Store.Sessions.add
    tool_permission_enforcer.Store.Agents.get
session_is_created = refl

filled : (s : String) → (s == "") ≡ false → s ≢ ""
filled s h = ground arith

create-validate_example :
    validate jwt settings created.session_token seed_agent_id 64000000 created_db
    ≡ (ok (claims_of (new_session settings new "2" "jti_2" 5000000)), created_db)
unfolding string_eq
create-validate_example =
    create-validate jwt settings (jwt-ReadsBack settings.session_signing_secret) new "2" "jti_2"
      5000000 64000000 F.db created_db created session_is_created audiences_filled.1
      (filled "jti_2" refl) (filled seed_agent_id refl) (filled "user_1" refl)
      (filled "customer_1001" refl) (ground arith) (ground arith) (ground arith)

abbrev new_claims : TrustedSessionClaims
new_claims = claims_of (new_session settings new "2" "jti_2" 5000000)

validate_iff_example :
    (validate jwt settings created.session_token seed_agent_id 64000000 created_db
      ≡ (ok new_claims, created_db))
    ↔ ((Codec.decode jwt settings created.session_token 64000000 ≡ ok new_claims)
        × IsLive new_claims seed_agent_id 64000000 created_db)
validate_iff_example =
    validate_iff jwt settings created.session_token seed_agent_id 64000000 created_db new_claims

abbrev revoked_row : AgentSession
revoked_row = record F.session {
  status = tool_permission_enforcer.Domain.Enums.SessionStatus.revoked;
  revoked_at = some (tool_permission_enforcer.Domain.Models.Datetime.aware 7000000);
}

session_is_revoked : (revoke "sess_1" 7000000 F.db).0 ≡ ok revoked_row
unfolding tool_permission_enforcer.Base.string_eq
    tool_permission_enforcer.Security.TrustedSessions.create
    tool_permission_enforcer.Security.TrustedSessions.validate
    tool_permission_enforcer.Security.TrustedSessions.check_persisted
    tool_permission_enforcer.Security.TrustedSessions.new_session
    tool_permission_enforcer.Security.TrustedSessions.revoke
    tool_permission_enforcer.Security.TrustedSessions.Codec.issue
    tool_permission_enforcer.Security.TrustedSessions.Codec.issued_claims
    tool_permission_enforcer.Security.TrustedSessions.Codec.decode
    tool_permission_enforcer.Security.TrustedSessions.Codec.decoded_claims
    tool_permission_enforcer.Security.TrustedSessions.Codec.session_claims
    tool_permission_enforcer.Security.TrustedSessions.Codec.required_string
    tool_permission_enforcer.Store.Sessions.get tool_permission_enforcer.Store.Sessions.add
    tool_permission_enforcer.Store.Agents.get
session_is_revoked = refl

-- Another session is created after the revocation, and the revocation is repeated.
revoke-not-validate_example :
    (validate jwt settings old_token seed_agent_id 9000000 (
      after_all jwt settings
        (create_one new "2" "jti_2" 7500000 ∷ revoke_one "sess_1" 8000000 ∷ [])
        ((revoke "sess_1" 7000000 F.db).1))).0
    ≢ ok F.claims
revoke-not-validate_example =
    revoke-not-validate jwt settings "sess_1" 7000000 F.db revoked_row
      (create_one new "2" "jti_2" 7500000 ∷ revoke_one "sess_1" 8000000 ∷ []) old_token
      seed_agent_id 9000000 F.claims session_is_revoked refl
