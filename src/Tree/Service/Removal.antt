-- ===== src/Tree/Service/Removal.antt =====
-- apps/server/src/knowledge-tree/knowledge-tree.service.ts: removing a node with all below it, and
-- refreshing the figures of its knowledge base. An operation that throws leaves what it did so
-- far. The walks run on fuel, as in the parent module.
pub mod Runs
pub mod Kept
pub mod Cleared
pub mod Ends
pub mod Locks
use openviking_admin.Prelude.{
  [], ℕ, zero, suc, ◌+◌, ◌-◌, String, Bool, true, false, not, ◌&&◌, ◌||◌, Option, none, some, List,
  ◌∷◌, ◌++◌, str_eq, if◌then◌else◌, truthy, or_else, Result, ok, err,
}
use openviking_admin.Session.{assert_no_active_session_in_nodes}
use openviking_admin.Tree.Node.{KnowledgeNode, KnowledgeNodeKind, collection, document}
use openviking_admin.Tree.Table.{
  ends_with_slash, is_collection, opt_eq, in_tenant, find_children, remove_row,
}
use openviking_admin.Tree.Service.{
  Environment, TreeState, TreeError, locked, engine_failed, config_failed, Deletion, DraftRow,
  KnowledgeBaseRow, deleted, missing, refused, tenant_condition, find_node,
  collect_subtree_node_ids,
}

-- The result, and the state when it was returned or thrown; `none` while a walk has not ended.
abbrev pub Outcome : Type 0
Outcome = Option (Result TreeError (Unit {0}) × TreeState)

abbrev pub after : Outcome → (TreeState → Outcome) → Outcome
after none next = none
after (some (err e, s)) next = some (err e, s)
after (some (ok _, s)) next = next s

unfoldable pub should_delete_recursively : KnowledgeNode → Bool
should_delete_recursively node =
    if is_collection node.kind
    then true
    else if truthy node.content_uri
    then true
    else elim node.viking_uri [ none ↦ false | some uri ↦ ends_with_slash uri ]

unfoldable pub delete_open_viking_resource :
    Environment → Option String → Bool → TreeState → Result TreeError (Unit {0}) × TreeState
delete_open_viking_resource env none recursive s = (ok tt, s)
delete_open_viking_resource env (some uri) recursive s =
    let request : Deletion = record { uri = uri; recursive = recursive } in
    if not (truthy (some uri)) then (ok tt, s) else elim (env.engine request) [
      | deleted ↦ (ok tt, record s { deletions = s.deletions ++ (request ∷ []) })
      | missing ↦ (ok tt, s)
      | refused ↦ (err engine_failed, s)
    ]

-- `delete({ nodeId, tenantId: tenantId ?? undefined })`
unfoldable pub delete_by_node : String → Option String → List DraftRow → List DraftRow
delete_by_node node_id tenant [] = []
delete_by_node node_id tenant (draft ∷ drafts) =
    let rest = delete_by_node node_id tenant drafts in
    if str_eq draft.node_id node_id
      && elim tenant [ none ↦ true | some t ↦ opt_eq draft.tenant_id (some t) ]
    then rest
    else draft ∷ rest

-- What `removeNode` does once the children are gone.
unfoldable pub remove_self :
    Environment → Bool → Option String → KnowledgeNode → TreeState → Outcome
unfolding should_delete_recursively delete_open_viking_resource delete_by_node remove_row
remove_self env skip tenant node s =
    let engine : Result TreeError (Unit {0}) × TreeState =
      if skip
      then (ok tt, s)
      else delete_open_viking_resource env node.viking_uri (should_delete_recursively node) s in
    after (some engine) (λ t. some (
      ok tt,
      record t {
        drafts = if env.has_drafts then delete_by_node node.id tenant t.drafts else t.drafts;
        nodes = remove_row node.id t.nodes;
      },
    ))

unfoldable pub remove_each :
    (String → TreeState → Outcome) → List KnowledgeNode → TreeState → Outcome
remove_each remove [] s = some (ok tt, s)
remove_each remove (child ∷ children) s = after (remove child.id s) (remove_each remove children)

unfoldable pub remove_node : Environment → Bool → ℕ → String → Option String → TreeState → Outcome
unfolding find_node find_children remove_each remove_self
remove_node env skip zero id tenant s = none
remove_node env skip (suc fuel) id tenant s =
    let remove_child : String → TreeState → Outcome =
      λ child. remove_node env skip fuel child tenant in
    elim (find_node env id tenant s) [
      | err e ↦ some (err e, s)
      | ok node ↦
          after (remove_each remove_child (find_children id tenant s.nodes) s)
            (remove_self env skip tenant node)
    ]

abbrev is_counted : String → Option String → KnowledgeNode → Bool
is_counted kb_id tenant node =
    str_eq node.kb_id kb_id
    && not (is_collection node.kind)
    && in_tenant (tenant_condition tenant) node

-- `COUNT(node.id)` and `COALESCE(SUM(node.vectorCount), 0)`
unfoldable pub aggregate_knowledge_base_stats : String → Option String → List KnowledgeNode → ℕ × ℕ
aggregate_knowledge_base_stats kb_id tenant [] = (0, 0)
aggregate_knowledge_base_stats kb_id tenant (node ∷ nodes) =
    let (docs, vectors) = aggregate_knowledge_base_stats kb_id tenant nodes in
    if is_counted kb_id tenant node
    then (docs + 1, vectors + or_else node.vector_count 0)
    else (docs, vectors)

unfoldable pub save_stats :
    ℕ → String → Option String → ℕ × ℕ → List KnowledgeBaseRow → List KnowledgeBaseRow
save_stats now kb_id tenant stats [] = []
save_stats now kb_id tenant stats (kb ∷ bases) =
    let rest = save_stats now kb_id tenant stats bases in
    if str_eq kb.id kb_id
      && elim (tenant_condition tenant) [ none ↦ true | some t ↦ opt_eq kb.tenant_id (some t) ]
    then record kb { doc_count = stats.0; vector_count = stats.1; updated_at = now } ∷ bases
    else kb ∷ rest

unfoldable pub refresh_knowledge_base_stats :
    Environment → String → Option String → TreeState → TreeState
unfolding aggregate_knowledge_base_stats save_stats
refresh_knowledge_base_stats env kb_id tenant s = record s {
  bases =
      save_stats env.now kb_id tenant (aggregate_knowledge_base_stats kb_id tenant s.nodes) s.bases;
}

-- Whether the context brings a configuration of the engine, and what it skips.
pub record OpenVikingDeleteContext : Type 0 where
  pub has_ov_config : Bool
  pub skip_open_viking : Bool
  pub skip_knowledge_base_stats_refresh : Bool

-- `resolveOpenVikingConfig`, which may throw, and what comes after it.
abbrev pub with_ov_config : Bool → TreeState → Outcome → Outcome
with_ov_config false s next = some (err config_failed, s)
with_ov_config true s next = next

unfoldable pub remove :
    Environment → OpenVikingDeleteContext → ℕ → String → Option String → TreeState → Outcome
unfolding find_node collect_subtree_node_ids assert_no_active_session_in_nodes remove_node
    refresh_knowledge_base_stats
remove env context fuel id tenant s = elim (find_node env id tenant s) [
  | err e ↦ some (err e, s)
  | ok node ↦ elim (collect_subtree_node_ids fuel id tenant s.nodes) [
    | none ↦ none
    | some node_ids ↦ elim (assert_no_active_session_in_nodes node_ids s.sessions) [
      | err lock ↦ some (err (locked lock), s)
      | ok _ ↦ with_ov_config (context.has_ov_config || env.resolves_ov_config) s (
          after (remove_node env context.skip_open_viking fuel id tenant s) (λ t. some (
            ok tt,
            if context.skip_knowledge_base_stats_refresh
                then t
                else refresh_knowledge_base_stats env node.kb_id tenant t,
          )))
    ]
  ]
]
