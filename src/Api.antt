-- ===== src/Api.antt =====
-- The HTTP interface of the proxy: services/permission_proxy/api. A handler returns its reply or
-- raises; `http_exception` holds a status and the `code` of its detail. Any other error is answered
-- with 500 by the framework.
pub mod Errors
pub mod SessionRoutes
pub mod ToolRoutes
pub mod AuditRoutes
