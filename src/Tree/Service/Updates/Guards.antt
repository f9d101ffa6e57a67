-- ===== src/Tree/Service/Updates/Guards.antt =====
-- The tests that an update which writes its row has passed.
use openviking_admin.Prelude.{
  ℕ, String, ◌≡◌, refl, Bool, true, false, Option, none, some, arith, if◌then◌else◌, Result, ok,
  err,
}
use openviking_admin.Tree.Node.{KnowledgeNode, AuditActorSnapshot}
use openviking_admin.Tree.Table.{save_row}
use openviking_admin.Tree.Service.{Environment, TreeState, TreeError, find_node}
use openviking_admin.Tree.Service.Updates.{
  UpdateNodeDto, Answer, saved_row, save, is_subtree_affecting_update, changes, assign,
  guard_subtree, update,
}
use openviking_admin.Tree.Service.{immutable_viking_uri, immutable_content_uri}

module _ (env : Environment) (fuel : ℕ) (id : String) (dto : UpdateNodeDto) (tenant : Option String)
    (actor : Option AuditActorSnapshot) (s : TreeState) where
  -- What held when the update wrote its row.
  pub record Passed (row : KnowledgeNode) (t : TreeState) : Type 0 where
    pub node : KnowledgeNode
    pub found : find_node env id tenant s ≡ ok node
    pub same_viking_uri : changes dto.viking_uri node.viking_uri ≡ false
    pub same_content_uri : changes dto.content_uri node.content_uri ≡ false
    pub idle : guard_subtree fuel (is_subtree_affecting_update dto node) id tenant s ≡ some (ok tt)
    pub answer : row ≡ saved_row (assign dto actor node) s.nodes
    pub table : t.nodes ≡ save_row (assign dto actor node) s.nodes

  saved :
      (node row : KnowledgeNode) (t : TreeState)
      → save node s ≡ some (ok row, t)
      → (row ≡ saved_row node s.nodes) × (t.nodes ≡ save_row node s.nodes)
  unfolding save
  saved node row t h = ground arith

  guarded :
      (node row : KnowledgeNode) (t : TreeState) (guard : Option (Result TreeError (Unit {0})))
      → elim guard as (λ _. Answer) [
        | none ↦ none
        | some (err e) ↦ some (err e, s)
        | some (ok _) ↦ save (assign dto actor node) s
      ]
        ≡ some (ok row, t)
      → (guard ≡ some (ok tt)) × (save (assign dto actor node) s ≡ some (ok row, t))
  guarded node row t none h = absurd (cc)
  guarded node row t (some (err e)) h = absurd (cc)
  guarded node row t (some (ok _)) h = (refl, h)

  tests_of_branches :
      (node row : KnowledgeNode) (t : TreeState) (viking content : Bool) (next : Answer)
      → (if viking
          then some (err immutable_viking_uri, s)
          else if content
          then some (err immutable_content_uri, s)
          else next)
        ≡ some (ok row, t)
      → (viking ≡ false) × (content ≡ false) × (next ≡ some (ok row, t))
  tests_of_branches node row t true content next h = absurd (cc)
  tests_of_branches node row t false true next h = absurd (cc)
  tests_of_branches node row t false false next h = (refl, refl, h)

  tests_of_found :
      (row : KnowledgeNode) (t : TreeState) (result : Result TreeError KnowledgeNode)
      → find_node env id tenant s ≡ result
      → elim result as (λ _. Answer) [
        | err e ↦ some (err e, s)
        | ok node ↦
            if changes dto.viking_uri node.viking_uri
            then some (err immutable_viking_uri, s)
            else if changes dto.content_uri node.content_uri
            then some (err immutable_content_uri, s)
            else elim (guard_subtree fuel (is_subtree_affecting_update dto node) id tenant s)
                as (λ _. Answer) [
                  | none ↦ none
                  | some (err e) ↦ some (err e, s)
                  | some (ok _) ↦ save (assign dto actor node) s
                ]
      ]
        ≡ some (ok row, t)
      → Passed row t
  tests_of_found row t (err e) found h = absurd (cc)
  tests_of_found row t (ok node) found h =
      let (viking, content, rest) = tests_of_branches node row t _ _ _ h in
      let (idle, written) =
        guarded node row t (guard_subtree fuel (is_subtree_affecting_update dto node) id tenant s)
          rest in
      let (answer, table) = saved (assign dto actor node) row t written in
      record {
        node = node;
        found = found;
        same_viking_uri = viking;
        same_content_uri = content;
        idle = idle;
        answer = answer;
        table = table;
      }

  pub passed :
      (row : KnowledgeNode) (t : TreeState)
      → update env fuel id dto tenant actor s ≡ some (ok row, t)
      → Passed row t
  unfolding update
  passed row t h = tests_of_found row t (find_node env id tenant s) refl h
