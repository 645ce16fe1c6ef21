-- ===== src/Security.antt =====
-- Identity and trusted sessions: services/permission_proxy/security.
pub mod Claims
pub mod Jwt
pub mod Auth
pub mod TrustedSessions
