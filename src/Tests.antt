-- ===== src/Tests.antt =====
-- The properties at concrete inputs.
pub mod Fixture
pub mod Tokens
pub mod Routes
mod Policy
mod Audit
mod Calls
mod Identity
mod Crm
mod Store
mod Seeding
mod Overlap
mod Agent
mod Requests
mod Mint
mod Schema
