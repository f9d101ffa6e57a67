-- ===== src/Mcp.antt =====
-- apps/server/src/mcp: the protocol by which agents list and call capabilities.
pub mod JsonRpc
pub mod Events
pub mod Sessions
pub mod Methods
pub mod Protocol
mod Examples
