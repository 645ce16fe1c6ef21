-- ===== src/Tools.antt =====
-- The tool adapters: services/permission_proxy/tools.
pub mod Adapter
pub mod Crm
