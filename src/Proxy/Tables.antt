-- ===== src/Proxy/Tables.antt =====
-- What no request to the proxy does: change a row of the registry, or take an event out of the log.
use mathlib.Core.List.{append-nil, append_assoc}
use tool_permission_enforcer.Base.{
  Option, List, [], ◌∷◌, ◌++◌, ◌≡◌, refl, sym, ◌∙◌, inl, inr, string_eq,
}
use tool_permission_enforcer.Domain.Models.{ToolCallAuditEvent}
use tool_permission_enforcer.Store.{Db}
use tool_permission_enforcer.Settings.{PermissionProxySettings}
use tool_permission_enforcer.Security.Jwt.{Jwt, KeyReply}
use tool_permission_enforcer.ToolCalls.{Env, Call, Run, World, execute}
use tool_permission_enforcer.ToolCalls.Idempotency.{execute-later}
use tool_permission_enforcer.ToolCalls.Tables.{execute-KeepsTables}
use tool_permission_enforcer.Service.{ServiceConfig}
use tool_permission_enforcer.Api.SessionRoutes.Tables.{
  OnlySessions, create_session-OnlySessions, revoke_session-OnlySessions,
}
use tool_permission_enforcer.Api.ToolRoutes.{call_of}
use tool_permission_enforcer.Api.ToolRoutes.Gate.{execute_tool_call-cases}
use tool_permission_enforcer.Proxy.{Tick, Request, handle, serve}
use tool_permission_enforcer.Proxy.Effects.{Effect, unchanged, opened, ended, called, handle-Effect}

-- Agents, tools and manifests are the same, and events were added at the end of the table.
pub record OnlyAdds (db db' : Db) : Type 0 where
  pub agents : db'.agents ≡ db.agents
  pub tools : db'.tools ≡ db.tools
  pub manifests : db'.manifests ≡ db.manifests
  pub later : List ToolCallAuditEvent
  pub events : db'.events ≡ db.events ++ later

OnlyAdds-refl : (db : Db) → OnlyAdds db db
OnlyAdds-refl db = record {
  agents = refl;
  tools = refl;
  manifests = refl;
  later = [];
  events = sym (append-nil db.events);
}

OnlyAdds-trans : (a b c : Db) → OnlyAdds a b → OnlyAdds b c → OnlyAdds a c
OnlyAdds-trans a b c h k = record {
  agents = k.agents ∙ h.agents;
  tools = k.tools ∙ h.tools;
  manifests = k.manifests ∙ h.manifests;
  later = h.later ++ k.later;
  events = rw (k.events, h.events) (append_assoc a.events h.later k.later);
}

OnlySessions-OnlyAdds : (db db' : Db) → OnlySessions db db' → OnlyAdds db db'
OnlySessions-OnlyAdds db db' h = record {
  agents = h.agents;
  tools = h.tools;
  manifests = h.manifests;
  later = [];
  events = h.events ∙ sym (append-nil db.events);
}

execute-OnlyAdds :
    (env : Env) (c : Call) (run : Run) (w : World) → OnlyAdds w.db (execute env c run w).1.db
execute-OnlyAdds env c run w =
    let kept = execute-KeepsTables env c run w in
    let (later, events) = execute-later env c run w in
    record {
      agents = kept.agents;
      tools = kept.tools;
      manifests = kept.manifests;
      later = later;
      events = events;
    }

module _ (jwt : Jwt) (settings : PermissionProxySettings) (provider : Option (jwt.Token → KeyReply))
    (config : ServiceConfig) (env : Env) where
  Effect-OnlyAdds :
      (t : Tick) (w w' : World) (r : Request jwt.Token)
      → Effect jwt settings provider config env t w w' r
      → OnlyAdds w.db w'.db
  Effect-OnlyAdds t w w' r (unchanged same) = rw same (OnlyAdds-refl w.db)
  Effect-OnlyAdds t w w' r (opened credentials request principal known e) = rw e (
      OnlySessions-OnlyAdds w.db _ (
        create_session-OnlySessions jwt settings request principal t.session_hex t.jti_hex t.now
          w.db))
  Effect-OnlyAdds t w w' r (ended credentials session_id principal known e) =
      rw e
        (OnlySessions-OnlyAdds w.db _ (revoke_session-OnlySessions session_id principal t.now w.db))
  Effect-OnlyAdds t w w' r (called input e) =
      elim (execute_tool_call-cases jwt settings provider env input t.now t.run w) [
        | inl same ↦ rw (e, same) (OnlyAdds-refl w.db)
        | inr (a, executed) ↦
            rw (e, executed)
              (execute-OnlyAdds env (call_of jwt settings provider env input a) t.run w)
      ]

  -- Whatever requests the proxy serves, and whatever the called tool writes to the customers, the
  -- agents, the tools and the manifests stay as they are, and audit events are only added after the
  -- ones that are there.
  pub serve-OnlyAdds :
      (requests : List (Tick × Request jwt.Token)) (w : World)
      → OnlyAdds w.db (serve jwt settings provider config env requests w).db
  unfolding serve
  serve-OnlyAdds [] w = OnlyAdds-refl w.db
  serve-OnlyAdds ((t, r) ∷ rest) w =
      let w' = (handle jwt settings provider config env t r w).1 in
      OnlyAdds-trans w.db w'.db _
        (Effect-OnlyAdds t w w' r (handle-Effect jwt settings provider config env t r w))
        (serve-OnlyAdds rest w')
