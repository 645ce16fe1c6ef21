-- ===== src/Api/SessionRoutes/Bounds.antt =====
-- How long a session lasts that a route opened.
use tool_permission_enforcer.Base.{
  ℕ, ◌+◌, ◌*◌, ◌≤◌, String, [], ◌∷◌, ◌++◌, ◌≡◌, refl, arith, string_eq,
}
use tool_permission_enforcer.Base.Outcome.{ok}
use tool_permission_enforcer.Domain.Models.{AgentSession, as_utc}
use tool_permission_enforcer.Store.{Db}
use tool_permission_enforcer.Store.Sessions
use tool_permission_enforcer.Settings.{PermissionProxySettings}
use tool_permission_enforcer.Security.Auth.{Principal}
use tool_permission_enforcer.Security.Jwt.{Jwt}
use tool_permission_enforcer.Security.TrustedSessions.{
  CreatedTrustedSession, NewSession, new_session, requested_ttl, create,
}
use tool_permission_enforcer.Api.SessionRoutes.{CreateSessionRequest, create_session}
use tool_permission_enforcer.Api.SessionRoutes.Hosts.{requested, create_session-ok}

module _ (jwt : Jwt) (settings : PermissionProxySettings) where
  create-ttl :
      (new : NewSession) (session_hex jti_hex : String) (now : ℕ) (db : Db)
      (created : CreatedTrustedSession jwt.Token)
      → (create jwt settings new session_hex jti_hex now db).0 ≡ ok created
      → (60 ≤ requested_ttl settings new)
        × (requested_ttl settings new ≤ settings.session_token_ttl_seconds)
        × (created.expires_at
            ≡ as_utc (new_session settings new session_hex jti_hex now).expires_at)
        × ((create jwt settings new session_hex jti_hex now db).1.sessions
            ≡ db.sessions ++ (new_session settings new session_hex jti_hex now ∷ []))
  unfolding create Sessions.add
  create-ttl new session_hex jti_hex now db created h =
      (ground arith, ground arith, ground arith, ground arith)

  -- A session that `create_session` opens is added as a row that names the subject of the token, and
  -- expires at the time that is answered: 60 seconds from now at the earliest, and the configured
  -- lifetime from now at the latest.
  pub create_session-bounds :
      (request : CreateSessionRequest) (principal : Principal) (session_hex jti_hex : String)
      (now : ℕ) (db : Db) (created : CreatedTrustedSession jwt.Token)
      → (create_session jwt settings request principal session_hex jti_hex now db).0 ≡ ok created
      → (s : AgentSession) × ((create_session jwt settings request principal session_hex jti_hex now
            db).1.sessions
          ≡ db.sessions ++ (s ∷ []))
        × (s.created_by_subject ≡ principal.subject)
        × (as_utc s.expires_at ≡ created.expires_at)
        × (now + 60 * 1000000 ≤ created.expires_at)
        × (created.expires_at ≤ now + settings.session_token_ttl_seconds * 1000000)
  unfolding new_session
  create_session-bounds request principal session_hex jti_hex now db created h =
      let (done, same) =
        create_session-ok jwt settings request principal session_hex jti_hex now db created h in
      let (low, high, expires, rows) =
        create-ttl (requested request principal) session_hex jti_hex now db created done in
      (
        new_session settings (requested request principal) session_hex jti_hex now,
        rw same rows,
        refl,
        ground (arith, expires),
        ground (arith, expires, low),
        ground (arith, expires, high),
      )
