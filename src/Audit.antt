-- ===== src/Audit.antt =====
-- The audit trail: services/permission_proxy/audit.
pub mod Sanitize
pub mod Event
pub mod Content
pub mod Service
