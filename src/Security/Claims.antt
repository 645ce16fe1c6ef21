-- ===== src/Security/Claims.antt =====
-- What a validated session token says: `TrustedSessionClaims` of security/sessions.py. Instants are
-- in microseconds.
use tool_permission_enforcer.Base.{ℕ, String}

pub record TrustedSessionClaims : Type 0 where
  pub session_id : String
  pub token_jti : String
  pub agent_id : String
  pub user_id : String
  pub customer_id : String
  pub issued_at : ℕ
  pub expires_at : ℕ
