-- ===== src/Tree/Service.antt =====
-- apps/server/src/knowledge-tree/knowledge-tree.service.ts: finding, updating and removing nodes.
-- The state holds the tables of nodes, drafts and knowledge bases, the registry of open documents,
-- and the resources that were deleted in the engine. Calls of the engine are decided by the
-- environment; so is the lookup of a node in another database of the tenant. The subtree of a node
-- is walked on fuel: `none` is a walk that has not ended yet.
pub mod Walks
pub mod Removal
pub mod Updates
use openviking_admin.Prelude.{
  [], ℕ, zero, suc, String, Option, none, some, Bool, not, List, ◌∷◌, ◌++◌, truthy, Result, ok, err,
  if◌then◌else◌,
}
use openviking_admin.Session.{DocumentSessionRegistry, Locked}
use openviking_admin.Tree.Node.{KnowledgeNode}
use openviking_admin.Tree.Table.{to_model, find_one, find_children}

pub record DraftRow : Type 0 where
  pub node_id : String
  pub tenant_id : Option String

pub data KnowledgeBaseStatus : Type 0 where
  active building archived : KnowledgeBaseStatus

pub record KnowledgeBaseRow : Type 0 where
  pub id : String
  pub name : String
  pub description : Option String
  pub tenant_id : Option String
  pub status : KnowledgeBaseStatus
  pub viking_uri : Option String
  pub doc_count : ℕ
  pub vector_count : ℕ
  pub updated_at : ℕ

-- A DELETE of the engine: the resource, and whether what lies below it goes too.
pub record Deletion : Type 0 where
  pub uri : String
  pub recursive : Bool

pub data DeleteOutcome : Type 0 where
  deleted missing refused : DeleteOutcome

pub record Environment : Type 0 where
  pub now : ℕ
  -- The rows in the tenant's own database, where `findOneWithTenantRouting` reaches one.
  pub routed : String → Option (List KnowledgeNode)
  pub engine : Deletion → DeleteOutcome
  pub has_drafts : Bool
  -- Whether `resolveOVConfig` finds the configuration of the engine.
  pub resolves_ov_config : Bool

pub record TreeState : Type 0 where
  pub nodes : List KnowledgeNode
  pub drafts : List DraftRow
  pub bases : List KnowledgeBaseRow
  pub sessions : DocumentSessionRegistry
  pub deletions : List Deletion

pub data TreeError : Type 0 where
  not_found : TreeError
  immutable_viking_uri immutable_content_uri : TreeError
  locked : Locked → TreeError
  engine_failed config_failed : TreeError

-- `if (tenantId) where.tenantId = tenantId`
abbrev pub tenant_condition : Option String → Option String
tenant_condition tenant = if truthy tenant then tenant else none

-- `findOneWithTenantRouting`, for a tenant that is not empty.
unfoldable pub find_one_with_tenant_routing :
    Environment → String → Option String → Option KnowledgeNode
unfolding find_one
find_one_with_tenant_routing env id none = none
find_one_with_tenant_routing env id (some t) =
    if not (truthy (some t))
    then none
    else elim (env.routed t) [ none ↦ none | some rows ↦ find_one id (some t) rows ]

unfoldable pub find_node :
    Environment → String → Option String → TreeState → Result TreeError KnowledgeNode
unfolding find_one find_one_with_tenant_routing
find_node env id tenant s = elim (find_one id (tenant_condition tenant) s.nodes) [
  | some node ↦ ok (to_model node)
  | none ↦ elim (find_one_with_tenant_routing env id tenant) [
    | some node ↦ ok (to_model node)
    | none ↦ err not_found
  ]
]

abbrev pub both {ℓ} : {A : Type ℓ} → Option (List A) → Option (List A) → Option (List A)
both (some xs) (some ys) = some (xs ++ ys)
both _ _ = none

-- `Promise.all(children.map(...))`, flattened.
unfoldable pub collect_each :
    (String → Option (List String)) → List KnowledgeNode → Option (List String)
collect_each collect [] = some []
collect_each collect (child ∷ children) = both (collect child.id) (collect_each collect children)

unfoldable pub collect_subtree_node_ids :
    ℕ → String → Option String → List KnowledgeNode → Option (List String)
unfolding collect_each find_children
collect_subtree_node_ids zero id tenant nodes = none
collect_subtree_node_ids (suc fuel) id tenant nodes =
    let below =
      collect_each (λ child. collect_subtree_node_ids fuel child tenant nodes)
        (find_children id tenant nodes) in
    both (some (id ∷ [])) below
