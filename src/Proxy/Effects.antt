-- ===== src/Proxy/Effects.antt =====
-- The requests that change the world: two session routes and the tool-call route.
use tool_permission_enforcer.Base.{String, Option, ◌≡◌, refl, inl, inr, arith, string_eq}
use tool_permission_enforcer.Base.Outcome.{ok, Result-cases}
use tool_permission_enforcer.Settings.{PermissionProxySettings}
use tool_permission_enforcer.Security.Auth.{Principal}
use tool_permission_enforcer.Security.Jwt.{Jwt, KeyReply}
use tool_permission_enforcer.ToolCalls.{Env, World}
use tool_permission_enforcer.Service.{ServiceConfig}
use tool_permission_enforcer.Api.Errors.{Credentials, bearer_principal}
use tool_permission_enforcer.Api.SessionRoutes.{
  CreateSessionRequest, identity_me, create_session, revoke_session,
}
use tool_permission_enforcer.Api.SessionRoutes.Tables.{validate_session-reads}
use tool_permission_enforcer.Api.ToolRoutes.{ToolCallInput, execute_tool_call}
use tool_permission_enforcer.Api.AuditRoutes
use tool_permission_enforcer.Proxy.{
  Tick, Request, identity, open_session, check_session, end_session, tool_call, audit, about, alive,
  ready, handle,
}

module _ (jwt : Jwt) (settings : PermissionProxySettings) (provider : Option (jwt.Token → KeyReply))
    (config : ServiceConfig) (env : Env) where
  -- What a request leads to.
  pub data Effect (t : Tick) (w w' : World) : Request jwt.Token → Type 0 where
    unchanged : {r : Request jwt.Token} → w' ≡ w → Effect t w w' r
    opened :
        (credentials : Option (Credentials jwt.Token)) (request : CreateSessionRequest)
        (principal : Principal)
        → bearer_principal jwt settings provider credentials t.now ≡ ok principal
        → w' ≡ record w {
          db = (create_session jwt settings request principal t.session_hex t.jti_hex t.now w.db).1;
        }
        → Effect t w w' (open_session credentials request)
    ended :
        (credentials : Option (Credentials jwt.Token)) (session_id : String) (principal : Principal)
        → bearer_principal jwt settings provider credentials t.now ≡ ok principal
        → w' ≡ record w { db = (revoke_session session_id principal t.now w.db).1 }
        → Effect t w w' (end_session credentials session_id)
    called :
        (input : ToolCallInput jwt.Token)
        → w' ≡ (execute_tool_call jwt settings provider env input t.now t.run w).1
        → Effect t w w' (tool_call input)

  pub handle-Effect :
      (t : Tick) (r : Request jwt.Token) (w : World)
      → Effect t w (handle jwt settings provider config env t r w).1 r
  unfolding handle
  handle-Effect t (identity credentials) w =
      elim (Result-cases (bearer_principal jwt settings provider credentials t.now)) [
        | inr (e, failed) ↦ unchanged (ground arith)
        | inl (principal, known) ↦ elim (Result-cases (identity_me principal w.db)) [
          | inr (e, failed) ↦ unchanged (ground arith)
          | inl (body, found) ↦ unchanged (ground arith)
        ]
      ]
  handle-Effect t (open_session credentials request) w =
      elim (Result-cases (bearer_principal jwt settings provider credentials t.now)) [
        | inr (e, failed) ↦ unchanged (ground arith)
        | inl (principal, known) ↦ opened credentials request principal known (ground arith)
      ]
  handle-Effect t (check_session credentials session_token) w =
      elim (Result-cases (bearer_principal jwt settings provider credentials t.now)) [
        | inr (e, failed) ↦ unchanged (ground arith)
        | inl (principal, known) ↦
            unchanged (
              ground
                (arith, validate_session-reads jwt settings session_token principal t.now w.db))
      ]
  handle-Effect t (end_session credentials session_id) w =
      elim (Result-cases (bearer_principal jwt settings provider credentials t.now)) [
        | inr (e, failed) ↦ unchanged (ground arith)
        | inl (principal, known) ↦ ended credentials session_id principal known (ground arith)
      ]
  handle-Effect t (tool_call input) w = called input (ground arith)
  handle-Effect t (audit credentials request) w =
      elim (Result-cases (
        AuditRoutes.handle env.isoformat env.digest jwt settings provider credentials t.now request
          w.db)) [
            | inr (e, failed) ↦ unchanged (ground arith)
            | inl (reply, found) ↦ unchanged (ground arith)
          ]
  handle-Effect t about w = unchanged refl
  handle-Effect t alive w = unchanged refl
  handle-Effect t ready w = unchanged refl
