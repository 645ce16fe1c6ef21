-- ===== src/Lib.antt =====
-- Tool Permission Enforcer: an HTTP proxy that lets registered AI agents call tools. It checks the
-- access token, a trusted session and a permission manifest, forwards the calls that are permitted
-- to a private CRM, and keeps a hash-linked audit log.
--
-- The parts, from the bottom up:
--   Base         helpers: decidable equality, tables as lists, dictionaries, JSON, results, list lemmas
--   Domain       services/permission_proxy/domain: enumerations, errors, rows
--   Store        services/permission_proxy/persistence/repositories.py,
--                services/sample_crm/persistence/repositories.py and the transaction of
--                services/common/database.py: the database `Db` is a record of tables, a repository
--                method reads it or is an `Action`, which may raise; `transaction` rolls back
--   Settings     services/common/settings.py
--   Security     services/permission_proxy/security: `Auth` is auth.py, `TrustedSessions` and its
--                `Codec` are sessions.py, `Jwt` is what is used of PyJWT
--   Policy       services/permission_proxy/policy: `Manifest` and `Document` are manifest.py (the
--                schema and its parser), `Evaluator` is evaluator.py
--   Audit        services/permission_proxy/audit/service.py
--   Tools        services/permission_proxy/tools/crm.py
--   ToolCalls    services/permission_proxy/tool_calls.py: `execute` acts on a `World`, the database
--                and the calls that reached the adapter; `serve` runs a series of calls. The called
--                tool writes the customers of the same database.
--                `Concurrent` cuts `execute` at its await: a process is a world and the calls
--                that wait, a step begins, resumes or cancels a call
--   Api          services/permission_proxy/api: the error answers, the session routes, the tool-call
--                route and the audit routes
--   Seed         services/permission_proxy/persistence/seed.py
--   SampleCrm    services/sample_crm: `handle` is api.py, `Application` main.py
--   Service      services/common/models.py and the service routes of each main.py
--   Proxy        services/permission_proxy/main.py: `handle` answers a request to any route on a
--                `World`, `serve` runs a series of requests
--   ReferenceAgent  services/reference_agent: `chat` is api.py, `ask_gpt` llm.py, and the registry
--                and the executor of its tools
--   Migrations   migrations/versions: each revision is a list of operations on a schema
--   Scripts      scripts/mint_dev_token.py
--   Tests        the properties at concrete inputs, on a database like the seeded one
--
-- A child of a module that holds no definition of the program holds proofs about its parent and is
-- named for what it proves.
--
-- Conventions. Instants are natural numbers of microseconds. What a clock or `uuid4` returns is an
-- argument. No definition runs on fuel: every loop of the source runs over a list. Parameters are the
-- adapter, what the called tool leaves of the customers, the digest (SHA-256 of canonical JSON),
-- `isoformat`, PyJWT and the keys of a JWKS provider, the HTTP client, Alembic, the client of the
-- language model, `json.loads` and `json.dumps`, and what pydantic takes for an integer or a Boolean
-- beside the JSON ones.
--
-- Not modelled: threads of the other routes inside a transaction, lengths of database columns, the
-- validation of request bodies by the web framework, the database engine, the JSON log format,
-- the other scripts and the deployment.
pub mod Base
pub mod Domain
pub mod Store
pub mod Settings
pub mod Security
pub mod Policy
pub mod Audit
pub mod Tools
pub mod ToolCalls
pub mod Api
pub mod Seed
pub mod Service
pub mod Proxy
pub mod SampleCrm
pub mod ReferenceAgent
pub mod Migrations
pub mod Scripts
pub mod Tests
