-- ===== src/Tree.antt =====
-- The knowledge tree (apps/server/src/knowledge-tree).
pub mod Node
pub mod Acl
pub mod Table
pub mod Rows
pub mod Service
mod Examples
