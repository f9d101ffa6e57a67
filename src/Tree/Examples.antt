-- ===== src/Tree/Examples.antt =====
-- Tests of the knowledge tree, and its theorems at concrete trees.
use openviking_admin.Prelude.{
  ℕ, ◌<◌, String, ◌≡◌, refl, sym, ap, ◌∙◌, ◌≢◌, ◌↔◌, ◌⊎◌, inl, inr, true, false, Option, none, some,
  List, [], ◌∷◌, arith, eq_iff, str_eq, if◌then◌else◌, Result, ok, err, In, get, set,
}
use openviking_admin.Session.{
  DocumentSessionRegistry, empty_registry, register, has_active_session, write, tree_locked,
  assert_no_active_session_in_nodes, some_active,
}
use openviking_admin.Tree.Node.{KnowledgeNode, collection, clean, apply_updated_audit_actor}
use openviking_admin.Tree.Acl.{KnowledgeNodeAccessPrincipal, can_read_node, filter_readable_nodes}
use openviking_admin.Tree.Acl.Readers.{CanRead, filter_readable_nodes_iff}
use openviking_admin.Tree.Table.{find_one, find_children, remove_row, save_row}
use openviking_admin.Tree.Rows.{is_child}
use openviking_admin.Tree.Service.{
  TreeError, Environment, TreeState, locked, deleted, find_node, collect_each,
  collect_subtree_node_ids,
}
use openviking_admin.Tree.Service.Walks.{Below, here, under, Ranks, collect_subtree_node_ids_iff}
use openviking_admin.Tree.Service.Removal.{
  OpenVikingDeleteContext, remove, remove_node, remove_each, remove_self, should_delete_recursively,
  delete_open_viking_resource, delete_by_node, refresh_knowledge_base_stats, save_stats,
  aggregate_knowledge_base_stats,
}
use openviking_admin.Tree.Service.Removal.Cleared.{HasPrimaryKey}
use openviking_admin.Tree.Service.Removal.Locks.{remove_locked, remove_success}
use openviking_admin.Tree.Service.Removal.Ends.{remove-Ends}
use openviking_admin.Tree.Service.Updates.{
  UpdateNodeDto, update, save, saved_row, assign, changes, is_subtree_affecting_update,
  guard_subtree,
}
use openviking_admin.Tree.Service.Updates.Effects.{
  MovesSubtree, update_success, update_under_itself,
}

abbrev node : String → Option String → KnowledgeNode
node id parent = record {
  id = id;
  tenant_id = some "t";
  kb_id = "kb";
  parent_id = parent;
  name = id;
  path = none;
  sort_order = 0;
  acl = none;
  kind = collection;
  viking_uri = some "viking://x/";
  content_uri = none;
  index_status = clean;
  draft_version = 0;
  indexed_version = 0;
  vector_count = none;
  last_indexed_at = none;
  index_error = none;
  audit = record {
    created_by_id = none;
    created_by_name = none;
    updated_by_id = none;
    updated_by_name = none;
  };
  created_at = 1;
  updated_at = 1;
}

abbrev nodes : List KnowledgeNode
nodes = node "a" none ∷ node "b" (some "a") ∷ node "c" none ∷ []

abbrev env : Environment
env = record {
  now = 9;
  routed = λ t. none;
  engine = λ d. deleted;
  has_drafts = true;
  resolves_ov_config = true;
}

abbrev state : DocumentSessionRegistry → List KnowledgeNode → TreeState
state sessions rows = record {
  nodes = rows;
  drafts = [];
  bases = [];
  sessions = sessions;
  deletions = [];
}

abbrev context : OpenVikingDeleteContext
context = record {
  has_ov_config = false;
  skip_open_viking = false;
  skip_knowledge_base_stats_refresh = false;
}

abbrev rank : String → ℕ
rank id = if str_eq id "a" then 1 else 0

rank_of_child :
    (row : KnowledgeNode) (id : String)
    → is_child id (some "t") row ≡ true
    → (row ≡ node "a" none) ⊎ (row ≡ node "b" (some "a")) ⊎ (row ≡ node "c" none)
    → rank row.id < rank id
rank_of_child row id is (inl e) = absurd (ground (arith, e, ap (is_child id (some "t")) e))
rank_of_child row id is (inr (inl e)) =
    ground (arith, ap (λ r. rank r.id) e, ap (is_child id (some "t")) e, eq_iff "a" id)
rank_of_child row id is (inr (inr e)) = absurd (ground (arith, e, ap (is_child id (some "t")) e))

ranks : Ranks (some "t") nodes rank
ranks id child (inl e) is = rank_of_child child id is (inl (sym e))
ranks id child (inr (inl e)) is = rank_of_child child id is (inr (inl (sym e)))
ranks id child (inr (inr (inl e))) is = rank_of_child child id is (inr (inr (sym e)))
ranks id child (inr (inr (inr e))) is = absurd e

abbrev row_of : String → KnowledgeNode
row_of id = if str_eq id "b" then node id (some "a") else node id none

row_of-id : (y : KnowledgeNode) → In y nodes → row_of y.id ≡ y
row_of-id y (inl e) = rw (sym e) refl
row_of-id y (inr (inl e)) = rw (sym e) refl
row_of-id y (inr (inr (inl e))) = rw (sym e) refl
row_of-id y (inr (inr (inr e))) = absurd e

key : HasPrimaryKey nodes
key y z m n h = sym (row_of-id y m) ∙ ap row_of h ∙ row_of-id z n

collected : collect_subtree_node_ids 2 "a" (some "t") nodes ≡ some ("a" ∷ "b" ∷ [])
unfolding collect_subtree_node_ids collect_each find_children
collected = refl

child_b : Below (some "t") nodes "a" "b"
child_b = under "a" "b" (node "b" (some "a")) (inr (inl refl)) refl (here "b")

collect_subtree_node_ids_iff_example :
    In {A = String} "b" ("a" ∷ "b" ∷ []) ↔ Below (some "t") nodes "a" "b"
collect_subtree_node_ids_iff_example =
    collect_subtree_node_ids_iff (some "t") nodes 2 "a" ("a" ∷ "b" ∷ []) "b" collected

abbrev looped : List KnowledgeNode
looped = node "a" (some "b") ∷ node "b" (some "a") ∷ []

remove-Ends_example :
    (r : Result TreeError (Unit {0})) × (t : TreeState) × (remove env context 2 "a"
        (some "t")
        (state empty_registry nodes)
      ≡ some (r, t))
remove-Ends_example =
    remove-Ends env context (some "t") rank 2 "a" (state empty_registry nodes) ranks (omega arith)

abbrev editing : DocumentSessionRegistry
editing = register "kb" "b" "conn" write empty_registry

remove_locked_example :
    remove env context 2 "a" (some "t") (state editing nodes)
    ≡ some (err (locked tree_locked), state editing nodes)
unfolding find_node find_one register has_active_session get set
remove_locked_example =
    remove_locked env context 2 "a" (some "t") (state editing nodes) rank (node "a" none) "b" ranks
      (omega arith) refl child_b refl

abbrev after_removal : TreeState
after_removal = record {
  nodes = node "c" none ∷ [];
  drafts = [];
  bases = [];
  sessions = empty_registry;
  deletions =
      record { uri = "viking://x/"; recursive = true }
      ∷ record { uri = "viking://x/"; recursive = true }
      ∷ [];
}

removed_a :
    remove env context 2 "a" (some "t") (state empty_registry nodes) ≡ some (ok tt, after_removal)
unfolding remove find_node find_one collect_subtree_node_ids collect_each find_children
    assert_no_active_session_in_nodes some_active has_active_session remove_node remove_each
    remove_self remove_row should_delete_recursively delete_open_viking_resource delete_by_node
    refresh_knowledge_base_stats save_stats aggregate_knowledge_base_stats get
removed_a = refl

remove_success_example :
    ((x : String) → Below (some "t") nodes "a" x → has_active_session x empty_registry ≡ false)
    × ((y : KnowledgeNode)
        → In y after_removal.nodes ↔ (In y nodes × (Below (some "t") nodes "a" y.id → ⊥)))
remove_success_example =
    remove_success env context 2 "a" (some "t") (state empty_registry nodes) after_removal key
      removed_a

abbrev dto : Option (Option String) → UpdateNodeDto
dto parent = record {
  name = some "renamed";
  parent_id = parent;
  sort_order = none;
  path = none;
  viking_uri = none;
  content_uri = none;
  acl = none;
}

abbrev self_parent : KnowledgeNode
self_parent = record (node "a" (some "a")) { name = "renamed" }

abbrev cyclic : TreeState
cyclic = state empty_registry (self_parent ∷ node "b" (some "a") ∷ node "c" none ∷ [])

moved_under_itself :
    update env 2 "a" (dto (some (some "a"))) (some "t") none (state empty_registry nodes)
    ≡ some (ok self_parent, cyclic)
unfolding update find_node find_one changes is_subtree_affecting_update guard_subtree
    collect_subtree_node_ids collect_each find_children assert_no_active_session_in_nodes
    some_active has_active_session assign apply_updated_audit_actor save saved_row save_row get
moved_under_itself = refl

update_under_itself_example : collect_subtree_node_ids 7 "a" (some "t") cyclic.nodes ≡ none
update_under_itself_example =
    update_under_itself env 2 "a" (dto (some (some "a"))) (some "t") none
      (state empty_registry nodes) self_parent cyclic moved_under_itself refl refl 7

update_success_example :
    (row : KnowledgeNode) × (find_node env "a" (some "t") (state empty_registry nodes) ≡ ok row)
    × (self_parent.id ≡ "a")
    × (self_parent.content_uri ≡ row.content_uri)
    × ((uri : String) → row.viking_uri ≡ some uri → self_parent.viking_uri ≡ some uri)
    × (MovesSubtree (dto (some (some "a"))) row
        → (x : String) → Below (some "t") nodes "a" x
        → has_active_session x empty_registry ≡ false)
    × ((y : KnowledgeNode) → y.id ≢ "a" → In y cyclic.nodes ↔ In y nodes)
update_success_example =
    update_success env 2 "a" (dto (some (some "a"))) (some "t") none (state empty_registry nodes)
      self_parent cyclic moved_under_itself

abbrev viewer : KnowledgeNodeAccessPrincipal
viewer = record { user_id = "u"; role = some "tenant_viewer" }

abbrev private : KnowledgeNode
private = record (node "p" none) {
  acl = some (record { roles = some ("tenant_admin" ∷ []); users = none; is_public = false });
}

read_by_role : filter_readable_nodes (private ∷ node "a" none ∷ []) viewer ≡ node "a" none ∷ []
unfolding filter_readable_nodes can_read_node
read_by_role = refl

filter_readable_nodes_iff_example :
    In private (filter_readable_nodes (private ∷ []) viewer)
    ↔ (In private (private ∷ []) × CanRead private.acl viewer)
filter_readable_nodes_iff_example = filter_readable_nodes_iff (private ∷ []) viewer private
