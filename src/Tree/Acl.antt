-- ===== src/Tree/Acl.antt =====
-- apps/server/src/knowledge-tree/knowledge-node-acl.service.ts, without `getAllowedUris`, which is
-- a query.
pub mod Readers
use openviking_admin.Prelude.{
  String, Option, none, some, Bool, true, false, ◌||◌, ◌&&◌, List, [], ◌∷◌, str_eq, or_else, truthy,
  Result, ok, err, if◌then◌else◌,
}
use openviking_admin.Tree.Node.{KnowledgeNode}

pub record KnowledgeNodeAccessPrincipal : Type 0 where
  pub user_id : String
  pub role : Option String

abbrev pub includes : List String → String → Bool
includes [] s = false
includes (t ∷ ts) s = str_eq t s || includes ts s

unfoldable pub can_read_node : KnowledgeNode → KnowledgeNodeAccessPrincipal → Bool
can_read_node node principal = elim node.acl [
  | none ↦ true
  | some acl ↦
      if acl.is_public
      then true
      else (truthy principal.role && includes (or_else acl.roles []) (or_else principal.role ""))
        || includes (or_else acl.users []) principal.user_id
]

pub data Forbidden : Type 0 where
  forbidden : Forbidden

unfoldable pub assert_can_read_node :
    KnowledgeNode → KnowledgeNodeAccessPrincipal → Result Forbidden (Unit {0})
unfolding can_read_node
assert_can_read_node node principal = if can_read_node node principal then ok tt else err forbidden

unfoldable pub filter_readable_nodes :
    List KnowledgeNode → KnowledgeNodeAccessPrincipal → List KnowledgeNode
unfolding can_read_node
filter_readable_nodes [] principal = []
filter_readable_nodes (node ∷ nodes) principal =
    let rest = filter_readable_nodes nodes principal in
    if can_read_node node principal then node ∷ rest else rest
