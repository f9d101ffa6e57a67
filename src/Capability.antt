-- ===== src/Capability.antt =====
-- The capability platform (apps/server/src/capabilities).
pub mod Types
pub mod RateLimit
pub mod Schema
pub mod Contract
pub mod Registry
pub mod Catalog
pub mod Execution
pub mod Ttl
pub mod Exchange
pub mod Credentials
pub mod Authorization
mod Examples
