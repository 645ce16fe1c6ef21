-- ===== src/Policy.antt =====
-- The policy engine: services/permission_proxy/policy.
pub mod Manifest
pub mod Document
pub mod Evaluator
