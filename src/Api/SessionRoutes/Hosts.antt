-- ===== src/Api/SessionRoutes/Hosts.antt =====
-- Who opens and ends sessions.
use tool_permission_enforcer.Base.{
  ℕ, String, true, [], ◌∷◌, ◌≡◌, ◌⊎◌, inl, inr, arith, string_eq, contains, Bool-cases,
}
use tool_permission_enforcer.Base.Outcome.{ok, Result-cases}
use tool_permission_enforcer.Store.{Db}
use tool_permission_enforcer.Settings.{PermissionProxySettings}
use tool_permission_enforcer.Security.Auth.{Principal, require_scopes}
use tool_permission_enforcer.Security.Jwt.{Jwt}
use tool_permission_enforcer.Security.TrustedSessions.{CreatedTrustedSession, NewSession, create}
use tool_permission_enforcer.Api.ToolRoutes.Gate.{require_scopes-one}
use tool_permission_enforcer.Api.SessionRoutes.{
  CreateSessionRequest, is_trusted_host, create_session, revoke_session,
}

-- The token is one of a host or an administrator, with the scope.
pub record IsHost (scope : String) (principal : Principal) : Type 0 where
  pub trusted : is_trusted_host principal ≡ true
  pub scoped : contains principal.scopes scope ≡ true

-- What the route passes to the service.
abbrev pub requested : CreateSessionRequest → Principal → NewSession
requested request principal = record {
  agent_id = request.agent_id;
  user_id = request.user_id;
  customer_id = request.customer_id;
  created_by_subject = principal.subject;
  ttl_seconds = request.ttl_seconds;
}

module _ (jwt : Jwt) (settings : PermissionProxySettings) (request : CreateSessionRequest)
    (principal : Principal) (session_hex jti_hex : String) (now : ℕ) (db : Db) where
  -- A principal that is no host with the scope changes nothing.
  pub create_session-IsHost :
      ((create_session jwt settings request principal session_hex jti_hex now db).1 ≡ db)
      ⊎ IsHost "session:create" principal
  unfolding create_session
  create_session-IsHost = elim (Bool-cases (is_trusted_host principal)) [
    | inr other ↦ inl (ground arith)
    | inl trusted ↦ elim (Result-cases (require_scopes principal ("session:create" ∷ []))) [
      | inr (e, missing) ↦ inl (ground arith)
      | inl (u, scoped) ↦ inr (record {
        trusted = trusted;
        scoped = require_scopes-one principal "session:create" (ground (arith, scoped));
      })
    ]
  ]

  -- The route answers as the service does, once it lets the principal pass.
  pub create_session-ok :
      (created : CreatedTrustedSession jwt.Token)
      → (create_session jwt settings request principal session_hex jti_hex now db).0 ≡ ok created
      → ((create jwt settings (requested request principal) session_hex jti_hex now db).0
          ≡ ok created)
        × ((create_session jwt settings request principal session_hex jti_hex now db).1
            ≡ (create jwt settings (requested request principal) session_hex jti_hex now db).1)
  unfolding create_session
  create_session-ok created h = elim (Bool-cases (is_trusted_host principal)) [
    | inr other ↦ absurd (ground arith)
    | inl trusted ↦ elim (Result-cases (require_scopes principal ("session:create" ∷ []))) [
      | inr (e, missing) ↦ absurd (ground arith)
      | inl (u, scoped) ↦
          elim (Result-cases
            (create jwt settings (requested request principal) session_hex jti_hex now db).0) [
              | inr (e, failed) ↦ absurd (ground arith)
              | inl (c, done) ↦ (ground arith, ground arith)
            ]
    ]
  ]

pub revoke_session-IsHost :
    (session_id : String) (principal : Principal) (now : ℕ) (db : Db)
    → ((revoke_session session_id principal now db).1 ≡ db) ⊎ IsHost "session:revoke" principal
unfolding revoke_session
revoke_session-IsHost session_id principal now db = elim (Bool-cases (is_trusted_host principal)) [
  | inr other ↦ inl (ground arith)
  | inl trusted ↦ elim (Result-cases (require_scopes principal ("session:revoke" ∷ []))) [
    | inr (e, missing) ↦ inl (ground arith)
    | inl (u, scoped) ↦ inr (record {
      trusted = trusted;
      scoped = require_scopes-one principal "session:revoke" (ground (arith, scoped));
    })
  ]
]
