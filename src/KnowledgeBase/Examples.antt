-- ===== src/KnowledgeBase/Examples.antt =====
-- Tests of knowledge bases, and the theorems at concrete tables.
use openviking_admin.Prelude.{
  ℕ, String, ◌≡◌, refl, sym, ap, ◌∙◌, ◌≢◌, ◌↔◌, inl, inr, true, false, Option, none, some, List, [],
  ◌∷◌, arith, str_eq, str_eq→≡, if◌then◌else◌, Bool-cases, Result, ok, err, In, get,
}
use openviking_admin.Session.{has_active_session_in_kb}
use openviking_admin.Tenant.Identity.{TenantRow, is_uuid, fits, uuid_pattern, hexes}
use openviking_admin.Tree.Node.{KnowledgeNode}
use openviking_admin.Tree.Table.{opt_eq, in_tenant}
use openviking_admin.Tree.Service as Tree
use openviking_admin.Tree.Service.{
  KnowledgeBaseRow, KnowledgeBaseStatus, active, building, archived, TreeState, TreeError,
  tenant_condition,
}
use openviking_admin.Tree.Service.Walks.{Below}
use openviking_admin.Tree.Service.Removal as Removal
use openviking_admin.Tree.Service.Removal.{Outcome, remove_each, delete_open_viking_resource}
use openviking_admin.Tree.Service.Removal.Cleared.{HasPrimaryKey}
use openviking_admin.KnowledgeBase.{
  KnowledgeBaseError, quota_reached, find_by_id, find_all, find_one_by_id_or_tenant_id, delete_base,
  is_in_base, find_by_kb, has_id, root_nodes, remove, create, new_base, CreateKnowledgeBaseDto,
}
use openviking_admin.KnowledgeBase.{find_tenant_by}
use openviking_admin.KnowledgeBase.Roots.{IsDeep}
use openviking_admin.KnowledgeBase.Clearing.{remove_base_success}
use openviking_admin.Tree.Node.{collection, clean}
use openviking_admin.Tree.Table as Table
use openviking_admin.Session.{
  empty_registry, assert_no_active_session_in_nodes, some_active, has_active_session,
}

abbrev node : String → String → Option String → KnowledgeNode
node kb_id id parent = record {
  id = id;
  tenant_id = some "t";
  kb_id = kb_id;
  parent_id = parent;
  name = id;
  path = none;
  sort_order = 0;
  acl = none;
  kind = collection;
  viking_uri = none;
  content_uri = none;
  index_status = clean;
  draft_version = 0;
  indexed_version = 0;
  vector_count = none;
  last_indexed_at = none;
  index_error = none;
  audit = record {
    created_by_id = none;
    created_by_name = none;
    updated_by_id = none;
    updated_by_name = none;
  };
  created_at = 1;
  updated_at = 1;
}

abbrev nodes : List KnowledgeNode
nodes = node "kb" "a" none ∷ node "kb" "b" (some "a") ∷ node "other" "c" none ∷ []

abbrev base : KnowledgeBaseRow
base = record {
  id = "kb";
  name = "notes";
  description = none;
  tenant_id = some "t";
  status = active;
  viking_uri = some "viking://kb/";
  doc_count = 0;
  vector_count = 0;
  updated_at = 0;
}

abbrev env : Tree.Environment
env = record {
  now = 9;
  routed = λ t. none;
  engine = λ d. Tree.deleted;
  has_drafts = true;
  resolves_ov_config = true;
}

abbrev state : List KnowledgeNode → TreeState
state rows = record {
  nodes = rows;
  drafts = [];
  bases = base ∷ [];
  sessions = empty_registry;
  deletions = [];
}

abbrev after : TreeState
after = record (state (node "other" "c" none ∷ [])) {
  bases = [];
  deletions = record { uri = "viking://kb/"; recursive = true } ∷ [];
}

removed : remove env 3 "kb" (some "t") (state nodes) ≡ some (ok tt, after)
unfolding remove find_by_id has_active_session_in_kb find_by_kb root_nodes has_id delete_base
    delete_open_viking_resource remove_each Removal.remove Removal.remove_node Removal.remove_self
    Tree.find_node Table.find_one Table.find_children Table.remove_row Tree.collect_subtree_node_ids
    Tree.collect_each assert_no_active_session_in_nodes some_active has_active_session get
    Removal.delete_by_node
removed = refl

-- Nodes that stand below each other have no root: they outlive their base.
loop_stays :
    remove env 3 "kb" (some "t") (state (node "kb" "a" (some "b") ∷ node "kb" "b" (some "a") ∷ []))
    ≡ some
        (ok tt, record after { nodes = node "kb" "a" (some "b") ∷ node "kb" "b" (some "a") ∷ [] })
unfolding remove find_by_id has_active_session_in_kb find_by_kb root_nodes has_id delete_base
    delete_open_viking_resource remove_each get
loop_stays = refl

abbrev row_of : String → KnowledgeNode
row_of id =
    if str_eq id "c"
    then node "other" "c" none
    else if str_eq id "b"
    then node "kb" "b" (some "a")
    else node "kb" id none

row_of-id : (y : KnowledgeNode) → In y nodes → row_of y.id ≡ y
row_of-id y (inl e) = rw (sym e) refl
row_of-id y (inr (inl e)) = rw (sym e) refl
row_of-id y (inr (inr (inl e))) = rw (sym e) refl
row_of-id y (inr (inr (inr e))) = absurd e

key : HasPrimaryKey nodes
key y z m n h = sym (row_of-id y m) ∙ ap row_of h ∙ row_of-id z n

abbrev depth : String → ℕ
depth id = if str_eq id "b" then 1 else 0

deep : IsDeep (some "t") nodes depth
deep p child (inl e) is = absurd (ground (arith, rw (sym e) at is))
deep p child (inr (inl e)) is = elim (Bool-cases (str_eq "a" p)) [
  | inl same ↦ rw (sym e, sym (str_eq→≡ "a" p same)) (omega arith)
  | inr other ↦ absurd (ground (arith, other, rw (sym e) at is))
]
deep p child (inr (inr (inl e))) is = absurd (ground (arith, rw (sym e) at is))
deep p child (inr (inr (inr e))) is = absurd e

remove_base_success_example :
    (has_active_session_in_kb "kb" empty_registry ≡ false)
    × ((kb : KnowledgeBaseRow) → In kb [] → kb.id ≢ "kb")
    × ((y : KnowledgeNode)
        → In y after.nodes ↔ (
            In y nodes
            × ((k : KnowledgeNode)
                → In k nodes
                → is_in_base "kb" (some "t") k ≡ true
                → Below (some "t") nodes k.id y.id
                → ⊥)))
remove_base_success_example =
    remove_base_success env 3 (some "t") after "kb" (state nodes) depth key refl deep removed

abbrev acme : TenantRow
acme = record {
  id = "t1";
  tenant_id = "t";
  viking_account = none;
  max_docs = some 2;
  ov_config = none;
}

abbrev wiki : CreateKnowledgeBaseDto
wiki = record { name = "wiki"; description = none; tenant_id = "t" }

abbrev first_created : Result KnowledgeBaseError KnowledgeBaseRow × TreeState
first_created = create (acme ∷ []) 5 "kb2" wiki (state [])

created_second : first_created.0 ≡ ok (new_base 5 "kb2" wiki "t")
unfolding create find_one_by_id_or_tenant_id find_tenant_by is_uuid fits uuid_pattern hexes find_all
created_second = refl

third_refused : (create (acme ∷ []) 6 "kb3" wiki first_created.1).0 ≡ err quota_reached
unfolding create find_one_by_id_or_tenant_id find_tenant_by is_uuid fits uuid_pattern hexes find_all
third_refused = refl

abbrev other : CreateKnowledgeBaseDto
other = record { name = "plans"; description = none; tenant_id = "t" }
