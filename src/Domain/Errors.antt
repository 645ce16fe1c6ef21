-- ===== src/Domain/Errors.antt =====
-- What the services raise: the domain errors of services/permission_proxy/domain/exceptions.py,
-- the errors of security/auth.py, security/sessions.py and tools/crm.py, each with its `code` and
-- `message`, the constraint violations of the database, and what Python raises for a missing key, a value or a type that does not fit, and an index.
use tool_permission_enforcer.Base.{ℕ, String, Option}

pub data Error : Type 0 where
  entity_not_found invalid_manifest_state seed_data_conflict : Error
  authentication_error : String → String → Error
  authorization_error : String → String → Error
  trusted_session_error : String → String → Error
  tool_execution_error : String → String → Option ℕ → Error
  integrity_error : Error
  key_error : Error
  value_error : Error
  type_error index_error : Error
  jwk_client_error : Error
  http_exception : ℕ → String → Error
