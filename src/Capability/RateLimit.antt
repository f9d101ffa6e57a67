-- ===== src/Capability/RateLimit.antt =====
-- Rate limiting of capability calls: the bucket store, the service over it, and their laws.
pub mod Store
pub mod Verdicts
pub mod Keys
pub mod Decisions
pub mod Service
pub mod Window
pub mod Refinement
pub mod Redis
