-- ===== src/Tree/Service/Updates/Effects.antt =====
-- What an update guarantees, and what it lets through.
use openviking_admin.Prelude.{
  ℕ, String, ◌≡◌, refl, ap, ◌∙◌, ◌≢◌, ◌↔◌, inl, inr, true, false, Option, none, some, arith,
  str_eq_refl, str_ne, ◌⊎◌, Bool-cases, Option-cases, or_else, ok, In,
}
use openviking_admin.Session.{has_active_session}
use openviking_admin.Tree.Node.{KnowledgeNode, AuditActorSnapshot}
use openviking_admin.Tree.Table.{opt_eq, in_tenant}
use openviking_admin.Tree.Rows.{is_child}
use openviking_admin.Tree.Service.{Environment, TreeState, find_node, collect_subtree_node_ids}
use openviking_admin.Tree.Service.Walks.{
  Below, here, collect_subtree_node_ids_iff, collect_subtree_node_ids_diverges,
}
use openviking_admin.Tree.Service.Removal.Runs.{find_node-id}
use openviking_admin.Tree.Service.Removal.Locks.{none_active_of_ok}
use openviking_admin.Tree.Service.Updates.{
  UpdateNodeDto, save, is_subtree_affecting_update, changes, assign, guard_subtree, update,
}
use openviking_admin.Tree.Service.Updates.Rows.{
  opt_eq_refl, opt_eq→≡, save_row_others, In-save_row, saved_row-content_uri, saved_row-id,
  saved_row-parent_id, saved_row-viking_uri,
}
use openviking_admin.Tree.Service.Updates.Guards.{passed}

unchanged :
    (value old : Option String)
    → changes value old ≡ false
    → elim value as (λ _. Option String) [ none ↦ old | some uri ↦ some uri ] ≡ old
unfolding changes
unchanged none old h = refl
unchanged (some uri) old h =
    opt_eq→≡ (some uri) old
      (elim (Bool-cases (opt_eq (some uri) old)) [ inl e ↦ e | inr e ↦ absurd (ground (arith, e)) ])

-- The change names another parent; or it names no parent and another name; or neither a parent nor
-- a name, and another path.
abbrev pub MovesSubtree : UpdateNodeDto → KnowledgeNode → Type 0
MovesSubtree dto node =
    ((parent : Option String) × (dto.parent_id ≡ some parent) × (parent ≢ node.parent_id))
    ⊎ ((name : String) × (dto.parent_id ≡ none) × (dto.name ≡ some name) × (name ≢ node.name))
    ⊎ ((path : Option String) × (dto.parent_id ≡ none)
        × (dto.name ≡ none)
        × (dto.path ≡ some path)
        × (path ≢ node.path))

opt_eq_ne : (a b : Option String) → a ≢ b → opt_eq a b ≡ false
opt_eq_ne a b apart = elim (Bool-cases (opt_eq a b)) [
  | inl same ↦ absurd (apart (opt_eq→≡ a b same))
  | inr other ↦ other
]

MovesSubtree-is_subtree_affecting_update :
    (dto : UpdateNodeDto) (node : KnowledgeNode)
    → MovesSubtree dto node
    → is_subtree_affecting_update dto node ≡ true
unfolding is_subtree_affecting_update
MovesSubtree-is_subtree_affecting_update dto node moves = elim moves [
  | inl (parent, e, apart) ↦ rw (e, opt_eq_ne parent node.parent_id apart) refl
  | inr (inl (name, e, f, apart)) ↦ rw (e, f, str_ne name node.name apart) refl
  | inr (inr (path, e, f, g, apart)) ↦ rw (e, f, g, opt_eq_ne path node.path apart) refl
]

guard_idle :
    (fuel : ℕ) (id : String) (tenant : Option String) (s : TreeState) (x : String)
    → guard_subtree fuel true id tenant s ≡ some (ok tt)
    → Below tenant s.nodes id x
    → has_active_session x s.sessions ≡ false
unfolding guard_subtree
guard_idle fuel id tenant s x h b =
    elim (Option-cases (collect_subtree_node_ids fuel id tenant s.nodes)) [
      | inl e ↦ ground (arith, e)
      | inr (ids, e) ↦
          none_active_of_ok x ids s.sessions
            ((collect_subtree_node_ids_iff tenant s.nodes fuel id ids x e).1 b) (ground (arith, e))
    ]

module _ (env : Environment) (fuel : ℕ) (id : String) (dto : UpdateNodeDto) (tenant : Option String)
    (actor : Option AuditActorSnapshot) (s : TreeState) where
  -- An update that succeeds found its node; the row it wrote keeps the id, the content URI and a
  -- resource URI of that node; where the update names another parent, or no parent and another
  -- name, or neither and another path, no document at or below the node was open; and no row with
  -- another id came, went or changed.
  pub update_success :
      (row : KnowledgeNode) (t : TreeState)
      → update env fuel id dto tenant actor s ≡ some (ok row, t)
      → (node : KnowledgeNode) × (find_node env id tenant s ≡ ok node)
        × (row.id ≡ id)
        × (row.content_uri ≡ node.content_uri)
        × ((uri : String) → node.viking_uri ≡ some uri → row.viking_uri ≡ some uri)
        × (MovesSubtree dto node
            → (x : String) → Below tenant s.nodes id x
            → has_active_session x s.sessions ≡ false)
        × ((y : KnowledgeNode) → y.id ≢ id → In y t.nodes ↔ In y s.nodes)
  unfolding assign
  update_success row t h =
      let p = passed env fuel id dto tenant actor s row t h in
      let changed : KnowledgeNode = assign dto actor p.node in
      let own : p.node.id ≡ id = find_node-id env id tenant s p.node p.found in
      (
        p.node,
        p.found,
        ap (λ n. n.id) p.answer ∙ saved_row-id changed s.nodes ∙ own,
        ap (λ n. n.content_uri) p.answer
            ∙ saved_row-content_uri changed s.nodes
            ∙ unchanged dto.content_uri p.node.content_uri p.same_content_uri,
        λ uri e.
            ap (λ n. n.viking_uri) p.answer
            ∙ saved_row-viking_uri changed s.nodes uri
                (unchanged dto.viking_uri p.node.viking_uri p.same_viking_uri ∙ e),
        λ moves x b.
            guard_idle fuel id tenant s x
              (rw (MovesSubtree-is_subtree_affecting_update dto p.node moves) at p.idle) b,
        λ y d. rw p.table (save_row_others changed s.nodes y (λ e. d (e ∙ own))),
      )

  -- An update that names the parent the node already has is not stopped by open documents, even
  -- when it changes the name or the path.
  pub update_same_parent :
      (node : KnowledgeNode)
      → find_node env id tenant s ≡ ok node
      → changes dto.viking_uri node.viking_uri ≡ false
      → changes dto.content_uri node.content_uri ≡ false
      → dto.parent_id ≡ some node.parent_id
      → update env fuel id dto tenant actor s ≡ save (assign dto actor node) s
  unfolding update is_subtree_affecting_update guard_subtree
  update_same_parent node found viking content same =
      ground (arith, found, viking, content, same, opt_eq_refl node.parent_id)

  -- After an update that names the node as its own parent, for a row of the tenant, the walk over
  -- the subtree of the node ends on no fuel.
  pub update_under_itself :
      (row : KnowledgeNode) (t : TreeState)
      → update env fuel id dto tenant actor s ≡ some (ok row, t)
      → dto.parent_id ≡ some (some id)
      → in_tenant tenant row ≡ true
      → (more : ℕ) → collect_subtree_node_ids more id tenant t.nodes ≡ none
  unfolding assign
  update_under_itself row t h itself of_tenant =
      let p = passed env fuel id dto tenant actor s row t h in
      let changed : KnowledgeNode = assign dto actor p.node in
      let own : row.id ≡ id =
        ap (λ n. n.id) p.answer
        ∙ saved_row-id changed s.nodes
        ∙ find_node-id env id tenant s p.node p.found in
      let parent : row.parent_id ≡ some id =
        ap (λ n. n.parent_id) p.answer
        ∙ saved_row-parent_id changed s.nodes
        ∙ ap (λ o. or_else o p.node.parent_id) itself in
      let present : In row t.nodes = rw p.answer (rw p.table (In-save_row changed s.nodes)) in
      let is : is_child id tenant row ≡ true = ground (arith, parent, of_tenant, str_eq_refl id) in
      collect_subtree_node_ids_diverges tenant t.nodes id row present is (rw own (here id))
