-- ===== src/Proxy/Hosts.antt =====
-- Who makes the proxy write the sessions.
use tool_permission_enforcer.Base.{Option, ◌≡◌, String, ◌⊎◌, refl, ap, inl, inr, string_eq}
use tool_permission_enforcer.Base.Outcome.{ok}
use tool_permission_enforcer.Store.{Db}
use tool_permission_enforcer.Settings.{PermissionProxySettings}
use tool_permission_enforcer.Security.Auth.{Principal}
use tool_permission_enforcer.Security.Jwt.{Jwt, KeyReply}
use tool_permission_enforcer.ToolCalls.{Env, World}
use tool_permission_enforcer.ToolCalls.Tables.{execute-KeepsTables}
use tool_permission_enforcer.Service.{ServiceConfig}
use tool_permission_enforcer.Api.Errors.{Credentials, bearer_principal}
use tool_permission_enforcer.Api.SessionRoutes.{CreateSessionRequest}
use tool_permission_enforcer.Api.SessionRoutes.Hosts.{
  IsHost, create_session-IsHost, revoke_session-IsHost,
}
use tool_permission_enforcer.Api.ToolRoutes.{call_of}
use tool_permission_enforcer.Api.ToolRoutes.Gate.{execute_tool_call-cases}
use tool_permission_enforcer.Proxy.{Tick, Request, open_session, end_session, handle}
use tool_permission_enforcer.Proxy.Effects.{Effect, unchanged, opened, ended, called, handle-Effect}

module _ (jwt : Jwt) (settings : PermissionProxySettings) (provider : Option (jwt.Token → KeyReply))
    (config : ServiceConfig) (env : Env) where
  -- A request to open or to end a session, by a host or an administrator with the scope for it.
  pub data ByHost (t : Tick) : Request jwt.Token → Type 0 where
    opens :
        (credentials : Option (Credentials jwt.Token)) (request : CreateSessionRequest)
        (principal : Principal)
        → bearer_principal jwt settings provider credentials t.now ≡ ok principal
        → IsHost "session:create" principal
        → ByHost t (open_session credentials request)
    ends :
        (credentials : Option (Credentials jwt.Token)) (session_id : String) (principal : Principal)
        → bearer_principal jwt settings provider credentials t.now ≡ ok principal
        → IsHost "session:revoke" principal
        → ByHost t (end_session credentials session_id)

  Effect-ByHost :
      (t : Tick) (w w' : World) (r : Request jwt.Token)
      → Effect jwt settings provider config env t w w' r
      → (w'.db.sessions ≡ w.db.sessions) ⊎ ByHost t r
  Effect-ByHost t w w' r (unchanged same) = inl (ap (λ (x : World). x.db.sessions) same)
  Effect-ByHost t w w' r (opened credentials request principal known e) =
      elim (create_session-IsHost jwt settings request principal t.session_hex t.jti_hex t.now
        w.db) [
          | inl same ↦ inl (rw e (ap (λ (x : Db). x.sessions) same))
          | inr host ↦ inr (opens credentials request principal known host)
        ]
  Effect-ByHost t w w' r (ended credentials session_id principal known e) =
      elim (revoke_session-IsHost session_id principal t.now w.db) [
        | inl same ↦ inl (rw e (ap (λ (x : Db). x.sessions) same))
        | inr host ↦ inr (ends credentials session_id principal known host)
      ]
  Effect-ByHost t w w' r (called input e) =
      elim (execute_tool_call-cases jwt settings provider env input t.now t.run w) [
        | inl same ↦ inl (rw (e, same) refl)
        | inr (a, executed) ↦ inl (
            rw (e, executed)
              (execute-KeepsTables env (call_of jwt settings provider env input a) t.run
                w).sessions)
      ]

  -- A request leaves the sessions as they are, unless it opens or ends a session and its bearer token
  -- is one of a host or an administrator with the scope `session:create` or `session:revoke`.
  pub handle-ByHost :
      (t : Tick) (r : Request jwt.Token) (w : World)
      → ((handle jwt settings provider config env t r w).1.db.sessions ≡ w.db.sessions) ⊎ ByHost t r
  handle-ByHost t r w =
      Effect-ByHost t w (handle jwt settings provider config env t r w).1 r
        (handle-Effect jwt settings provider config env t r w)
