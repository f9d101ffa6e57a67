-- ===== src/Tree/Table.antt =====
-- The queries of apps/server/src/knowledge-tree/infrastructure/repositories/
-- knowledge-node.repository.impl.ts that the service uses, over one table. The ORM finds the rows
-- whose columns equal the given ones, in the order of the table, ignores what is `undefined` in a
-- condition or in an update, and deletes by the primary key.
use openviking_admin.Prelude.{
  ◌-◌, not, truthy, or_else, String, Option, none, some, Bool, true, false, ◌&&◌, List, [], ◌∷◌,
  str_eq, if◌then◌else◌,
}
use Prim.Native.String.{len, slice}
use openviking_admin.Tree.Node.{KnowledgeNode, KnowledgeNodeKind, collection, document}

abbrev pub opt_eq : Option String → Option String → Bool
opt_eq none none = true
opt_eq (some a) (some b) = str_eq a b
opt_eq _ _ = false

-- A condition on the tenant, where it is not left out.
abbrev pub in_tenant : Option String → KnowledgeNode → Bool
in_tenant none node = true
in_tenant (some t) node = opt_eq node.tenant_id (some t)

-- `uri.endsWith('/')`
abbrev pub ends_with_slash : String → Bool
ends_with_slash uri = str_eq (slice uri (len uri - 1) (len uri)) "/"

abbrev pub is_collection : KnowledgeNodeKind → Bool
is_collection collection = true
is_collection document = false

abbrev pub infer_content_uri : KnowledgeNode → Option String
infer_content_uri node =
    if truthy node.content_uri
    then node.content_uri
    else if not (is_collection node.kind)
        && truthy node.viking_uri
        && not (ends_with_slash (or_else node.viking_uri ""))
    then node.viking_uri
    else none

-- The model of a row; the kind of a row is one of the two.
abbrev pub to_model : KnowledgeNode → KnowledgeNode
to_model node = record node { content_uri = infer_content_uri node }

-- `findOne({ where: { id, tenantId } })`; the row, before `toModel`.
unfoldable pub find_one : String → Option String → List KnowledgeNode → Option KnowledgeNode
find_one id tenant [] = none
find_one id tenant (node ∷ nodes) =
    if str_eq node.id id && in_tenant tenant node then some node else find_one id tenant nodes

-- `find({ where: { parentId, tenantId } })`
unfoldable pub find_children : String → Option String → List KnowledgeNode → List KnowledgeNode
find_children parent tenant [] = []
find_children parent tenant (node ∷ nodes) =
    let rest = find_children parent tenant nodes in
    if opt_eq node.parent_id (some parent) && in_tenant tenant node then node ∷ rest else rest

unfoldable pub remove_row : String → List KnowledgeNode → List KnowledgeNode
remove_row id [] = []
remove_row id (node ∷ nodes) =
    let rest = remove_row id nodes in if str_eq node.id id then rest else node ∷ rest

-- `a ?? b`, where what is null stays as it was.
abbrev kept {ℓ} : {A : Type ℓ} → Option A → Option A → Option A
kept none old = old
kept (some a) old = some a

-- `{ ...existing, ...toEntityInput(node) }` for a node that carries every field.
abbrev pub merge_row : KnowledgeNode → KnowledgeNode → KnowledgeNode
merge_row existing node = record node {
  tenant_id = kept node.tenant_id existing.tenant_id;
  path = kept node.path existing.path;
  acl = kept node.acl existing.acl;
  viking_uri = kept node.viking_uri existing.viking_uri;
  audit = record {
    created_by_id = kept node.audit.created_by_id existing.audit.created_by_id;
    created_by_name = kept node.audit.created_by_name existing.audit.created_by_name;
    updated_by_id = kept node.audit.updated_by_id existing.audit.updated_by_id;
    updated_by_name = kept node.audit.updated_by_name existing.audit.updated_by_name;
  };
}

-- `save` of a node that was found before.
unfoldable pub save_row : KnowledgeNode → List KnowledgeNode → List KnowledgeNode
save_row node [] = node ∷ []
save_row node (row ∷ rows) =
    if str_eq row.id node.id then merge_row row node ∷ rows else row ∷ save_row node rows
