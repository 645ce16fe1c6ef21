-- ===== src/Domain.antt =====
-- The data of the control plane: services/permission_proxy/domain.
pub mod Enums
pub mod Errors
pub mod Models
