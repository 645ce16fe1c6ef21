-- ===== src/Tests/Fixture.antt =====
-- A database like the seeded one, and simple instances of what the code takes from other libraries.
use tool_permission_enforcer.Base.{
  if◌then◌else◌, ◌==◌, ℕ, String, Bool, Option, none, some, [], ◌∷◌, string_eq, arith, refl,
}
use tool_permission_enforcer.Base.Dict.{Dict}
use tool_permission_enforcer.Base.Json.{Json, ℤ, bool, int, str, obj, field, fields}
use tool_permission_enforcer.Base.Outcome.{ok}
use tool_permission_enforcer.Domain.Enums.{AgentStatus, ToolStatus, ManifestStatus, SessionStatus}
use tool_permission_enforcer.Domain.Models.{
  Agent, ToolDefinition, PermissionManifest, AgentSession, aware,
}
use tool_permission_enforcer.Store.{Db}
use tool_permission_enforcer.Security.Claims.{TrustedSessionClaims}
use tool_permission_enforcer.Policy.Document.{Coercions}
use tool_permission_enforcer.Policy.Evaluator.{Request}
use tool_permission_enforcer.Tools.Adapter.{ToolAdapter}
use tool_permission_enforcer.ToolCalls.{Env, Call, Run, World}
use tool_permission_enforcer.ToolCalls.Idempotency.{IsOnce}
use tool_permission_enforcer.Seed.Data.{
  seed_agent_id, seed_tool_id, seed_manifest_id, read_only_manifest, crm_request_schema,
  crm_response_schema, seed_customers,
}

abbrev int_of : Json → Option ℤ
int_of (int z) = some z
int_of _ = none

abbrev bool_of : Json → Option Bool
bool_of (bool b) = some b
bool_of _ = none

abbrev pub coercions : Coercions
coercions = record { to_int = int_of; to_bool = bool_of }

-- The first text of an object.
abbrev pub digest : Json → String
digest (obj (field k (str s) fs)) = s
digest _ = ""

abbrev pub isoformat : ℕ → String
isoformat t = ""

abbrev pub agent : Agent
agent = record {
  agent_id = seed_agent_id;
  oidc_subject = "support-agent";
  name = "Support agent";
  owning_team = "support";
  status = AgentStatus.active;
}

abbrev crm : ToolDefinition
crm = record {
  tool_id = seed_tool_id;
  name = "crm";
  adapter_type = "http";
  private_base_url = "http://crm";
  allowed_operations = "read_customer" ∷ "write_customer" ∷ "delete_customer" ∷ [];
  request_schema = crm_request_schema;
  response_schema = crm_response_schema;
  status = ToolStatus.active;
}

abbrev pub manifest : PermissionManifest
manifest = record {
  manifest_id = seed_manifest_id;
  agent_id = seed_agent_id;
  version = 1;
  status = ManifestStatus.active;
  document = read_only_manifest;
  checksum = "1.0";
  effective_from = aware 0;
  expires_at = none;
  created_by = "seed";
  approved_by = none;
  change_reason = "first";
  activated_at = none;
}

abbrev pub session : AgentSession
session = record {
  session_id = "sess_1";
  token_jti = "jti_1";
  agent_id = seed_agent_id;
  user_id = "user_1";
  customer_id = "customer_1001";
  created_by_subject = "host";
  status = SessionStatus.active;
  created_at = aware 0;
  expires_at = aware 600000000;
  revoked_at = none;
}

abbrev pub db : Db
db = record {
  agents = agent ∷ [];
  tools = crm ∷ [];
  manifests = manifest ∷ [];
  sessions = session ∷ [];
  events = [];
  customers = seed_customers;
}

abbrev pub claims : TrustedSessionClaims
claims = record {
  session_id = "sess_1";
  token_jti = "jti_1";
  agent_id = seed_agent_id;
  user_id = "user_1";
  customer_id = "customer_1001";
  issued_at = 0;
  expires_at = 600000000;
}

abbrev pub parameters : Dict Json
parameters = ("customer_id", str "customer_1001") ∷ []

abbrev pub request : Request
request = record {
  agent_id = seed_agent_id;
  session = claims;
  tool_name = "crm";
  operation = "read_customer";
  parameters = parameters;
}

-- A tool that answers with the parameters.
abbrev adapter : ToolAdapter
adapter history r =
    ok (record { result = some (obj (fields r.parameters)); upstream_status_code = 200 })

abbrev pub env : Env
env = record {
  coercions = coercions;
  digest = digest;
  isoformat = isoformat;
  adapter = adapter;
  customers_after =
      λ history r customers. if r.operation == "delete_customer" then [] else customers;
}

abbrev pub call : Call
call = record {
  agent_id = seed_agent_id;
  trusted_session = claims;
  idempotency_key = "key-0001";
  tool = "crm";
  operation = "read_customer";
  parameters = parameters;
  trace_id = none;
}

abbrev pub run : Run
run = record {
  request_hex = "1";
  evaluated_at = 1000;
  first = record { hex = "1"; now = 1001 };
  second = record { hex = "2"; now = 1002 };
  decision_latency_ms = 1;
  first_latency_ms = 2;
  second_latency_ms = 3;
}

-- A second call, with other identifiers.
abbrev pub next_run : Run
next_run = record {
  request_hex = "2";
  evaluated_at = 2000;
  first = record { hex = "3"; now = 2001 };
  second = record { hex = "4"; now = 2002 };
  decision_latency_ms = 1;
  first_latency_ms = 2;
  second_latency_ms = 3;
}

abbrev pub world : World
world = record { db = db; forwarded = [] }

pub world-IsOnce : IsOnce world
world-IsOnce = record { once = λ a k. ground arith; audited = λ a k h. absurd (h refl) }
