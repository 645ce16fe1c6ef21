-- ===== src/Proxy/Customers.antt =====
-- Which requests to the proxy make the called tool write the customers.
use tool_permission_enforcer.Base.{Option, ◌≡◌, ◌⊎◌, ap, inl, inr, string_eq}
use tool_permission_enforcer.Settings.{PermissionProxySettings}
use tool_permission_enforcer.Security.Jwt.{Jwt, KeyReply}
use tool_permission_enforcer.ToolCalls.{Env, World}
use tool_permission_enforcer.Service.{ServiceConfig}
use tool_permission_enforcer.Api.SessionRoutes.Tables.{
  create_session-OnlySessions, revoke_session-OnlySessions,
}
use tool_permission_enforcer.Api.ToolRoutes.{ToolCallInput}
use tool_permission_enforcer.Api.ToolRoutes.Customers.{ByPermittedCall, execute_tool_call-writes}
use tool_permission_enforcer.Proxy.{Tick, Request, tool_call, handle}
use tool_permission_enforcer.Proxy.Effects.{Effect, unchanged, opened, ended, called, handle-Effect}

module _ (jwt : Jwt) (settings : PermissionProxySettings) (provider : Option (jwt.Token → KeyReply))
    (config : ServiceConfig) (env : Env) where
  -- The request is a tool call that was admitted, permitted and authorized, and the customers are
  -- what its tool leaves.
  pub data WritesByCall (t : Tick) (w w' : World) : Request jwt.Token → Type 0 where
    by_call :
        (input : ToolCallInput jwt.Token)
        → ByPermittedCall jwt settings provider env input t.now t.run w w'
        → WritesByCall t w w' (tool_call input)

  Effect-writes :
      (t : Tick) (w w' : World) (r : Request jwt.Token)
      → Effect jwt settings provider config env t w w' r
      → (w'.db.customers ≡ w.db.customers) ⊎ WritesByCall t w w' r
  Effect-writes t w w' r (unchanged same) = inl (ap (λ (x : World). x.db.customers) same)
  Effect-writes t w w' r (opened credentials request principal known e) = rw e (
      inl
        (create_session-OnlySessions jwt settings request principal t.session_hex t.jti_hex t.now
          w.db).customers)
  Effect-writes t w w' r (ended credentials session_id principal known e) =
      rw e (inl (revoke_session-OnlySessions session_id principal t.now w.db).customers)
  Effect-writes t w w' r (called input e) =
      elim (execute_tool_call-writes jwt settings provider env input t.now t.run w) [
        | inl same ↦ rw e (inl same)
        | inr by ↦ rw e (inr (by_call input by))
      ]

  -- A request to any route of the proxy leaves the customers as they are, or it is a tool call with
  -- the bearer token of an active agent and the session token of a live session of this agent, whose
  -- key is new and which the policy permits; its authorization was stored, and the customers are
  -- what the called tool leaves of them for this call.
  pub handle-writes :
      (t : Tick) (r : Request jwt.Token) (w : World)
      → let w' = (handle jwt settings provider config env t r w).1 in
        (w'.db.customers ≡ w.db.customers) ⊎ WritesByCall t w w' r
  handle-writes t r w =
      Effect-writes t w (handle jwt settings provider config env t r w).1 r
        (handle-Effect jwt settings provider config env t r w)
