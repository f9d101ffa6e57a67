-- ===== src/Tree/Service/Updates.antt =====
-- apps/server/src/knowledge-tree/knowledge-tree.service.ts: changing a node. A field of a DTO that
-- is undefined is `none`; where null is allowed, null is `some none`. The date that the ORM sets by
-- itself when it writes a row is left out.
pub mod Rows
pub mod Guards
pub mod Effects
use openviking_admin.Prelude.{
  [], ℕ, String, Bool, true, false, not, Option, none, some, List, ◌∷◌, str_eq, if◌then◌else◌,
  or_else, Result, ok, err,
}
use openviking_admin.Session.{assert_no_active_session_in_nodes}
use openviking_admin.Tree.Node.{
  KnowledgeNode, KnowledgeNodeAcl, KnowledgeNodeIndexStatus, AuditActorSnapshot,
  apply_updated_audit_actor,
}
use openviking_admin.Tree.Table.{opt_eq, merge_row, save_row}
use openviking_admin.Tree.Service.{
  Environment, TreeState, TreeError, immutable_viking_uri, immutable_content_uri, locked, find_node,
  collect_subtree_node_ids,
}

pub record UpdateNodeDto : Type 0 where
  pub name : Option String
  pub parent_id : Option (Option String)
  pub sort_order : Option ℕ
  pub path : Option (Option String)
  pub viking_uri : Option String
  pub content_uri : Option String
  pub acl : Option KnowledgeNodeAcl

-- The fields of `syncIndexState` that are given.
pub record IndexState : Type 0 where
  pub content_uri : Option (Option String)
  pub index_status : Option KnowledgeNodeIndexStatus
  pub draft_version : Option ℕ
  pub indexed_version : Option ℕ
  pub vector_count : Option (Option ℕ)
  pub last_indexed_at : Option (Option ℕ)
  pub index_error : Option (Option String)

-- The row as it was saved or the error, and the state then; `none` while a walk has not ended.
abbrev pub Answer : Type 0
Answer = Option (Result TreeError KnowledgeNode × TreeState)

-- What `save` returns, the row of the table after the write: a column that was passed as null and
-- so kept its value is undefined in the returned object, and has its value here. A node that was
-- found has the inferred content URI already.
unfoldable pub saved_row : KnowledgeNode → List KnowledgeNode → KnowledgeNode
saved_row node [] = node
saved_row node (row ∷ rows) =
    let rest = saved_row node rows in if str_eq row.id node.id then merge_row row node else rest

unfoldable pub save : KnowledgeNode → TreeState → Answer
unfolding saved_row save_row
save node s = some (ok (saved_row node s.nodes), record s { nodes = save_row node s.nodes })

-- `'parentId' in dto && dto.parentId !== undefined`, and so on.
unfoldable pub is_subtree_affecting_update : UpdateNodeDto → KnowledgeNode → Bool
is_subtree_affecting_update dto node = elim dto.parent_id [
  | some parent ↦ not (opt_eq parent node.parent_id)
  | none ↦ elim dto.name [
    | some name ↦ not (str_eq name node.name)
    | none ↦ elim dto.path [ some path ↦ not (opt_eq path node.path) | none ↦ false ]
  ]
]

-- A value for a field that may not change.
unfoldable pub changes : Option String → Option String → Bool
changes none old = false
changes (some value) old = not (opt_eq (some value) old)

-- `Object.assign(node, applyUpdatedAuditActor(dto, actor))`
unfoldable pub assign : UpdateNodeDto → Option AuditActorSnapshot → KnowledgeNode → KnowledgeNode
unfolding apply_updated_audit_actor
assign dto actor node = record node {
  name = or_else dto.name node.name;
  parent_id = or_else dto.parent_id node.parent_id;
  sort_order = or_else dto.sort_order node.sort_order;
  path = or_else dto.path node.path;
  viking_uri = elim dto.viking_uri [ none ↦ node.viking_uri | some uri ↦ some uri ];
  content_uri = elim dto.content_uri [ none ↦ node.content_uri | some uri ↦ some uri ];
  acl = elim dto.acl [ none ↦ node.acl | some acl ↦ some acl ];
  audit = apply_updated_audit_actor actor node.audit;
}

-- The subtree is collected and must be idle, where the update affects it.
unfoldable pub guard_subtree :
    ℕ → Bool → String → Option String → TreeState → Option (Result TreeError (Unit {0}))
unfolding collect_subtree_node_ids assert_no_active_session_in_nodes
guard_subtree fuel false id tenant s = some (ok tt)
guard_subtree fuel true id tenant s = elim (collect_subtree_node_ids fuel id tenant s.nodes) [
  | none ↦ none
  | some node_ids ↦ elim (assert_no_active_session_in_nodes node_ids s.sessions) [
    | err lock ↦ some (err (locked lock))
    | ok _ ↦ some (ok tt)
  ]
]

unfoldable pub update :
    Environment
    → ℕ
    → String
    → UpdateNodeDto
    → Option String
    → Option AuditActorSnapshot
    → TreeState
    → Answer
unfolding find_node changes is_subtree_affecting_update guard_subtree assign save
update env fuel id dto tenant actor s = elim (find_node env id tenant s) [
  | err e ↦ some (err e, s)
  | ok node ↦
      if changes dto.viking_uri node.viking_uri
      then some (err immutable_viking_uri, s)
      else if changes dto.content_uri node.content_uri
      then some (err immutable_content_uri, s)
      else elim (guard_subtree fuel (is_subtree_affecting_update dto node) id tenant s) [
        | none ↦ none
        | some (err e) ↦ some (err e, s)
        | some (ok _) ↦ save (assign dto actor node) s
      ]
]

-- `findOne`, a change of the node that was found, and `save`.
abbrev save_changed :
    Environment → String → Option String → (KnowledgeNode → KnowledgeNode) → TreeState → Answer
save_changed env id tenant change s = elim (find_node env id tenant s) [
  | err e ↦ some (err e, s)
  | ok node ↦ save (change node) s
]

unfoldable pub touch :
    Environment → String → Option String → Option AuditActorSnapshot → TreeState → Answer
unfolding find_node save apply_updated_audit_actor
touch env id tenant actor s =
    save_changed env id tenant
      (λ node. record node {
        updated_at = env.now;
        audit = apply_updated_audit_actor actor node.audit;
      })
      s

unfoldable pub sync_content_uri :
    Environment → String → String → Option String → Option AuditActorSnapshot → TreeState → Answer
unfolding find_node save apply_updated_audit_actor
sync_content_uri env id content_uri tenant actor s =
    save_changed env id tenant
      (λ node. record node {
        content_uri = some content_uri;
        updated_at = env.now;
        audit = apply_updated_audit_actor actor node.audit;
      })
      s

unfoldable pub sync_index_state :
    Environment
    → String
    → Option String
    → IndexState
    → Option AuditActorSnapshot
    → TreeState
    → Answer
unfolding find_node save apply_updated_audit_actor
sync_index_state env id tenant state actor s =
    save_changed env id tenant
      (λ node. record node {
        content_uri = or_else state.content_uri node.content_uri;
        index_status = or_else state.index_status node.index_status;
        draft_version = or_else state.draft_version node.draft_version;
        indexed_version = or_else state.indexed_version node.indexed_version;
        vector_count = or_else state.vector_count node.vector_count;
        last_indexed_at = or_else state.last_indexed_at node.last_indexed_at;
        index_error = or_else state.index_error node.index_error;
        updated_at = env.now;
        audit = apply_updated_audit_actor actor node.audit;
      })
      s
