-- ===== src/Tree/Node.antt =====
-- apps/server/src/knowledge-tree/domain/knowledge-node.model.ts and
-- apps/server/src/common/audit-actor.types.ts. Times are milliseconds.
use openviking_admin.Prelude.{ℕ, String, Option, none, some, Bool, List}

pub record KnowledgeNodeAcl : Type 0 where
  pub roles : Option (List String)
  pub users : Option (List String)
  pub is_public : Bool

pub data KnowledgeNodeKind : Type 0 where
  collection document : KnowledgeNodeKind

pub data KnowledgeNodeIndexStatus : Type 0 where
  clean dirty pending indexing failed : KnowledgeNodeIndexStatus

pub record AuditActorSnapshot : Type 0 where
  pub id : Option String
  pub username : Option String

-- `createdBy` and `updatedBy` are these columns once more.
pub record AuditColumns : Type 0 where
  pub created_by_id : Option String
  pub created_by_name : Option String
  pub updated_by_id : Option String
  pub updated_by_name : Option String

pub record KnowledgeNode : Type 0 where
  pub id : String
  pub tenant_id : Option String
  pub kb_id : String
  pub parent_id : Option String
  pub name : String
  pub path : Option String
  pub sort_order : ℕ
  pub acl : Option KnowledgeNodeAcl
  pub kind : KnowledgeNodeKind
  pub viking_uri : Option String
  pub content_uri : Option String
  pub index_status : KnowledgeNodeIndexStatus
  pub draft_version : ℕ
  pub indexed_version : ℕ
  pub vector_count : Option ℕ
  pub last_indexed_at : Option ℕ
  pub index_error : Option String
  pub audit : AuditColumns
  pub created_at : ℕ
  pub updated_at : ℕ

unfoldable pub apply_updated_audit_actor : Option AuditActorSnapshot → AuditColumns → AuditColumns
apply_updated_audit_actor none audit = audit
apply_updated_audit_actor (some actor) audit = record audit {
  updated_by_id = actor.id;
  updated_by_name = actor.username;
}
