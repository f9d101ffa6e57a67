-- ===== src/Settings.antt =====
-- apps/server/src/settings: the engine's address and keys, from the places where they may be set.
pub mod OvConfig
pub mod Precedence
mod Examples
