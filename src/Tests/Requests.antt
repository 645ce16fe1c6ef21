-- ===== src/Tests/Requests.antt =====
-- Requests to the proxy: a host opens a session, the agent calls a tool, and the host ends a session.
use tool_permission_enforcer.Base.{
  ◌+◌, ◌*◌, ◌≤◌, String, true, Option, none, some, List, [], ◌∷◌, ◌++◌, ◌≡◌, ◌⊎◌, refl, string_eq,
}
use tool_permission_enforcer.Base.Dict.{Dict}
use tool_permission_enforcer.Base.Json.{Json, int, str, pos}
use tool_permission_enforcer.Base.Outcome.{ok}
use tool_permission_enforcer.Domain.Models.{AgentSession, as_utc}
use tool_permission_enforcer.Security.Auth.{Principal}
use tool_permission_enforcer.Security.TrustedSessions.{CreatedTrustedSession, new_session}
use tool_permission_enforcer.Security.TrustedSessions.Codec
use tool_permission_enforcer.ToolCalls.Concurrent.{Reach}
use tool_permission_enforcer.ToolCalls.Concurrent.Sequential.{idle}
use tool_permission_enforcer.Service.{ServiceConfig}
use tool_permission_enforcer.Api.Errors.{Credentials}
use tool_permission_enforcer.Api.SessionRoutes.{CreateSessionRequest, create_session}
use tool_permission_enforcer.Api.SessionRoutes.Hosts.{requested}
use tool_permission_enforcer.Api.SessionRoutes.Bounds.{create_session-bounds}
use tool_permission_enforcer.Proxy.{
  Tick, Request, open_session, tool_call, end_session, ready, handle, serve,
}
use tool_permission_enforcer.Proxy.Tables.{OnlyAdds, serve-OnlyAdds}
use tool_permission_enforcer.Proxy.Runs.{requests-Reach}
use tool_permission_enforcer.Proxy.Customers.{WritesByCall, handle-writes}
use tool_permission_enforcer.Proxy.Hosts.{ByHost, handle-ByHost}
use tool_permission_enforcer.Seed.Data.{seed_agent_id}
use tool_permission_enforcer.Tests.Fixture as F
use tool_permission_enforcer.Tests.Routes.{input}
use tool_permission_enforcer.Tests.Tokens.{settings, jwt}

abbrev config : ServiceConfig
config = record { service_name = "permission-proxy"; service_version = "0.1.0"; app_env = "local" }

abbrev host_claims : Dict Json
host_claims =
    ("iss", str "http://issuer.test/")
    ∷ ("aud", str "tool-permission-enforcer")
    ∷ ("sub", str "host-1")
    ∷ ("token_use", str "host")
    ∷ ("scope", str "session:create session:revoke")
    ∷ ("iat", int (pos 0))
    ∷ ("nbf", int (pos 0))
    ∷ ("exp", int (pos 300))
    ∷ []

abbrev host_credentials : Option (Credentials (Dict Json × String))
host_credentials =
    some (record { scheme = "Bearer"; credentials = (host_claims, settings.dev_jwt_secret) })

abbrev request : CreateSessionRequest
request = record {
  agent_id = seed_agent_id;
  user_id = "user-7";
  customer_id = "C-7";
  ttl_seconds = some 300;
}

abbrev tick : Tick
tick = record { now = 500; session_hex = "aa"; jti_hex = "bb"; run = F.run; ping = true }

abbrev requests : List (Tick × Request (Dict Json × String))
requests =
    (tick, open_session host_credentials request)
    ∷ (tick, tool_call input)
    ∷ (tick, end_session host_credentials "sess_aa")
    ∷ (tick, ready)
    ∷ []

serve-OnlyAdds_example :
    OnlyAdds F.world.db (serve jwt settings none config F.env requests F.world).db
serve-OnlyAdds_example = serve-OnlyAdds jwt settings none config F.env requests F.world

requests-Reach_example :
    Reach F.env (idle F.world) (idle (serve jwt settings none config F.env requests F.world))
requests-Reach_example = requests-Reach jwt settings none config F.env requests F.world

handle-ByHost_example :
    ((handle jwt settings none config F.env tick
        (open_session host_credentials request)
        F.world).1.db.sessions
      ≡ F.world.db.sessions)
    ⊎ ByHost jwt settings none config F.env tick (open_session host_credentials request)
handle-ByHost_example =
    handle-ByHost jwt settings none config F.env tick (open_session host_credentials request)
      F.world

handle-writes_example :
    ((handle jwt settings none config F.env tick (tool_call input) F.world).1.db.customers
      ≡ F.world.db.customers)
    ⊎ WritesByCall jwt settings none config F.env tick F.world
        (handle jwt settings none config F.env tick (tool_call input) F.world).1
        (tool_call input)
handle-writes_example = handle-writes jwt settings none config F.env tick (tool_call input) F.world

abbrev host : Principal
host = record {
  subject = "host-1";
  token_use = "host";
  scopes = "session:create" ∷ "session:revoke" ∷ [];
  claims = host_claims;
}

abbrev created : CreatedTrustedSession (Dict Json × String)
created = record {
  session_id = "sess_aa";
  session_token =
      Codec.issue jwt settings (new_session settings (requested request host) "aa" "bb" 500);
  agent_id = seed_agent_id;
  user_id = "user-7";
  customer_id = "C-7";
  expires_at = 300000500;
}

opens_session : (create_session jwt settings request host "aa" "bb" 500 F.db).0 ≡ ok created
unfolding string_eq tool_permission_enforcer.Api.SessionRoutes.create_session
    tool_permission_enforcer.Security.Auth.require_scopes
    tool_permission_enforcer.Security.TrustedSessions.create
    tool_permission_enforcer.Security.TrustedSessions.new_session
    tool_permission_enforcer.Store.Agents.get tool_permission_enforcer.Store.Sessions.add
opens_session = refl

create_session-bounds_example :
    (s : AgentSession) × ((create_session jwt settings request host "aa" "bb" 500 F.db).1.sessions
      ≡ F.db.sessions ++ (s ∷ []))
    × (s.created_by_subject ≡ "host-1")
    × (as_utc s.expires_at ≡ 300000500)
    × (500 + 60 * 1000000 ≤ 300000500)
    × (300000500 ≤ 500 + settings.session_token_ttl_seconds * 1000000)
create_session-bounds_example =
    create_session-bounds jwt settings request host "aa" "bb" 500 F.db created opens_session
