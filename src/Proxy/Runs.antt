-- ===== src/Proxy/Runs.antt =====
-- The requests to the proxy are a run of the process of ToolCalls/Concurrent.
use tool_permission_enforcer.Base.{Option, List, [], ◌∷◌, ◌≡◌, inl, inr, string_eq}
use tool_permission_enforcer.Settings.{PermissionProxySettings}
use tool_permission_enforcer.Security.Jwt.{Jwt, KeyReply}
use tool_permission_enforcer.Store.{Db}
use tool_permission_enforcer.ToolCalls.{Env, World}
use tool_permission_enforcer.ToolCalls.Concurrent.{others, Reach, here, next}
use tool_permission_enforcer.ToolCalls.Concurrent.Sequential.{idle, execute-Reach, Reach-trans}
use tool_permission_enforcer.Service.{ServiceConfig}
use tool_permission_enforcer.Api.SessionRoutes.Tables.{
  create_session-OnlySessions, revoke_session-OnlySessions,
}
use tool_permission_enforcer.Api.ToolRoutes.{call_of}
use tool_permission_enforcer.Api.ToolRoutes.Gate.{execute_tool_call-cases}
use tool_permission_enforcer.Proxy.{Tick, Request, handle, serve}
use tool_permission_enforcer.Proxy.Effects.{Effect, unchanged, opened, ended, called, handle-Effect}

others-Reach :
    (env : Env) (w : World) (db : Db)
    → db.events ≡ w.db.events
    → Reach env (idle w) (idle (record w { db = db }))
others-Reach env w db same = next here (others db same)

module _ (jwt : Jwt) (settings : PermissionProxySettings) (provider : Option (jwt.Token → KeyReply))
    (config : ServiceConfig) (env : Env) where
  Effect-Reach :
      (t : Tick) (w w' : World) (r : Request jwt.Token)
      → Effect jwt settings provider config env t w w' r
      → Reach env (idle w) (idle w')
  Effect-Reach t w w' r (unchanged same) = rw same here
  Effect-Reach t w w' r (opened credentials request principal known e) = rw e (
      others-Reach env w _
        (create_session-OnlySessions jwt settings request principal t.session_hex t.jti_hex t.now
          w.db).events)
  Effect-Reach t w w' r (ended credentials session_id principal known e) =
      rw e
        (others-Reach env w _ (revoke_session-OnlySessions session_id principal t.now w.db).events)
  Effect-Reach t w w' r (called input e) =
      elim (execute_tool_call-cases jwt settings provider env input t.now t.run w) [
        | inl same ↦ rw (e, same) here
        | inr (a, executed) ↦
            rw (e, executed) (execute-Reach env (call_of jwt settings provider env input a) t.run w)
      ]

  -- A series of requests to whatever routes, each answered before the next, is a run of the process
  -- whose calls may overlap.
  pub requests-Reach :
      (requests : List (Tick × Request jwt.Token)) (w : World)
      → Reach env (idle w) (idle (serve jwt settings provider config env requests w))
  unfolding serve
  requests-Reach [] w = here
  requests-Reach ((t, r) ∷ rest) w =
      let w' = (handle jwt settings provider config env t r w).1 in
      Reach-trans (Effect-Reach t w w' r (handle-Effect jwt settings provider config env t r w))
        (requests-Reach rest w')
