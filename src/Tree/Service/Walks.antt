-- ===== src/Tree/Service/Walks.antt =====
-- The walk that collects a subtree: what it collects, and when it ends.
use openviking_admin.Prelude.{
  ℕ, zero, suc, ◌≤◌, ◌<◌, String, ◌≡◌, refl, sym, ap, ◌∙◌, ◌↔◌, inl, inr, true, Option, none, some,
  List, [], ◌∷◌, ◌++◌, arith, Option-cases, In, In-append, In-append_left, In-append_right,
}
use openviking_admin.Tree.Node.{KnowledgeNode}
use openviking_admin.Tree.Table.{find_children}
use openviking_admin.Tree.Rows.{is_child, find_children_sound, find_children_complete}
use openviking_admin.Tree.Service.{both, collect_each, collect_subtree_node_ids}

-- The ids below a node, the node included, along `parentId`.
pub data Below (tenant : Option String) (nodes : List KnowledgeNode)
    : String → String → Type 0 where
  here : (id : String) → Below tenant nodes id id
  under :
      (id x : String) (child : KnowledgeNode)
      → In child nodes
      → is_child id tenant child ≡ true
      → Below tenant nodes child.id x
      → Below tenant nodes id x

both-some :
    (a b : Option (List String)) (zs : List String)
    → both a b ≡ some zs
    → (xs : List String) × (ys : List String) × (a ≡ some xs) × (b ≡ some ys) × (xs ++ ys ≡ zs)
both-some (some xs) (some ys) zs h = (xs, ys, refl, refl, cc)
both-some (some xs) none zs h = absurd (cc)
both-some none b zs h = absurd (cc)

collect_each_sound :
    (collect : String → Option (List String)) (children : List KnowledgeNode) (ids : List String)
    (x : String)
    → collect_each collect children ≡ some ids
    → In x ids
    → (child : KnowledgeNode) × (below : List String) × In child children
      × (collect child.id ≡ some below)
      × In x below
unfolding collect_each
collect_each_sound collect [] [] x h m = absurd m
collect_each_sound collect [] (_ ∷ _) x h m = absurd (cc)
collect_each_sound collect (child ∷ children) ids x h m =
    let (xs, ys, first, rest, e) = both-some _ _ ids h in
    elim (In-append x xs ys (rw (sym e) at m)) [
      | inl early ↦ (child, xs, inl refl, first, early)
      | inr later ↦
          let (c, below, cm, found, found_in) =
            collect_each_sound collect children ys x rest later in
          (c, below, inr cm, found, found_in)
    ]

collect_each_complete :
    (collect : String → Option (List String)) (children : List KnowledgeNode) (ids : List String)
    (child : KnowledgeNode)
    → collect_each collect children ≡ some ids
    → In child children
    → (below : List String) × (collect child.id ≡ some below)
      × ((x : String) → In x below → In x ids)
unfolding collect_each
collect_each_complete collect [] ids child h m = absurd m
collect_each_complete collect (c ∷ children) ids child h m =
    let (xs, ys, first, rest, e) = both-some _ _ ids h in
    elim m [
      | inl same ↦
          (xs, ap (λ z. collect z.id) (sym same) ∙ first, λ x n. rw e at (In-append_left x xs ys n))
      | inr later ↦
          let (below, found, inside) = collect_each_complete collect children ys child rest later in
          (below, found, λ x n. rw e at (In-append_right x xs ys (inside x n)))
    ]

module _ (tenant : Option String) (nodes : List KnowledgeNode) where
  walk_inv :
      (fuel : ℕ) (id : String) (ids : List String)
      → collect_subtree_node_ids (suc fuel) id tenant nodes ≡ some ids
      → (below : List String) × (collect_each
            (λ child. collect_subtree_node_ids fuel child tenant nodes)
            (find_children id tenant nodes)
          ≡ some below)
        × (id ∷ below ≡ ids)
  unfolding collect_subtree_node_ids
  walk_inv fuel id ids h =
      let each : Option (List String) =
        collect_each (λ child. collect_subtree_node_ids fuel child tenant nodes)
          (find_children id tenant nodes) in
      let (xs, ys, first, rest, e) = both-some (some (id ∷ [])) each ids h in (ys, rest, cc)

  collect_sound :
      (fuel : ℕ) (id : String) (ids : List String) (x : String)
      → collect_subtree_node_ids fuel id tenant nodes ≡ some ids
      → In x ids
      → Below tenant nodes id x
  unfolding collect_subtree_node_ids
  collect_sound zero id ids x h m = absurd (cc)
  collect_sound (suc fuel) id ids x h m =
      let (below, walked, e) = walk_inv fuel id ids h in
      elim (rw (sym e) at m) as (λ _. Below tenant nodes id x) [
        | inl same ↦ rw (sym same) (here id)
        | inr later ↦
            let (child, cids, cm, found, inside) =
              collect_each_sound _ (find_children id tenant nodes) below x walked later in
            let (present, is) = find_children_sound id tenant child nodes cm in
            under id x child present is (collect_sound fuel child.id cids x found inside)
      ]

  collect_complete :
      (fuel : ℕ) (id : String) (ids : List String) (x : String)
      → collect_subtree_node_ids fuel id tenant nodes ≡ some ids
      → Below tenant nodes id x
      → In x ids
  unfolding collect_subtree_node_ids
  collect_complete zero id ids x h b = absurd (cc)
  collect_complete (suc fuel) id ids x h (here _) =
      let (below, walked, e) = walk_inv fuel id ids h in rw (sym e) (inl refl)
  collect_complete (suc fuel) id ids x h (under _ _ child present is b) =
      let (below, walked, e) = walk_inv fuel id ids h in
      let (cids, found, inside) =
        collect_each_complete _ (find_children id tenant nodes) below child walked
          (find_children_complete id tenant child nodes present is) in
      rw (sym e) (inr (inside x (collect_complete fuel child.id cids x found b)))

  -- A walk that ends collects exactly the ids below its node, the node's own included.
  pub collect_subtree_node_ids_iff :
      (fuel : ℕ) (id : String) (ids : List String) (x : String)
      → collect_subtree_node_ids fuel id tenant nodes ≡ some ids
      → In x ids ↔ Below tenant nodes id x
  collect_subtree_node_ids_iff fuel id ids x h =
      (collect_sound fuel id ids x h, collect_complete fuel id ids x h)

  -- Each node stands lower than its parent, as in every tree of finite height.
  abbrev pub Ranks : (String → ℕ) → Type 0
  Ranks rank =
      (id : String) (child : KnowledgeNode)
      → In child nodes
      → is_child id tenant child ≡ true
      → rank child.id < rank id

  collect_each_ends :
      (collect : String → Option (List String)) (children : List KnowledgeNode)
      → ((child : KnowledgeNode)
          → In child children
          → (below : List String) × (collect child.id ≡ some below))
      → (ids : List String) × (collect_each collect children ≡ some ids)
  unfolding collect_each
  collect_each_ends collect [] each = ([], refl)
  collect_each_ends collect (child ∷ children) each =
      let (xs, first) = each child (inl refl) in
      let (ys, rest) = collect_each_ends collect children (λ c m. each c (inr m)) in
      (xs ++ ys, rw first (rw rest refl))

  -- In a tree of finite height the walk ends, on fuel above the rank of its node.
  pub collect_subtree_node_ids_ends :
      (rank : String → ℕ)
      → Ranks rank
      → (fuel : ℕ) (id : String) → rank id < fuel
      → (ids : List String) × (collect_subtree_node_ids fuel id tenant nodes ≡ some ids)
  unfolding collect_subtree_node_ids
  collect_subtree_node_ids_ends rank ranks zero id lt = absurd (omega arith)
  collect_subtree_node_ids_ends rank ranks (suc fuel) id lt =
      let (below, walked) =
        collect_each_ends (λ child. collect_subtree_node_ids fuel child tenant nodes)
          (find_children id tenant nodes)
          (λ child cm.
            let (present, is) = find_children_sound id tenant child nodes cm in
            collect_subtree_node_ids_ends rank ranks fuel child.id
              (omega (arith, ranks id child present is))) in
      (id ∷ below, rw walked refl)

  walk_step :
      (fuel : ℕ) (id : String) (child : KnowledgeNode) (ids : List String)
      → In child nodes
      → is_child id tenant child ≡ true
      → collect_subtree_node_ids (suc fuel) id tenant nodes ≡ some ids
      → (below : List String) × (collect_subtree_node_ids fuel child.id tenant nodes ≡ some below)
  walk_step fuel id child ids present is h =
      let (below, walked, e) = walk_inv fuel id ids h in
      let (cids, found, inside) =
        collect_each_complete _ (find_children id tenant nodes) below child walked
          (find_children_complete id tenant child nodes present is) in
      (cids, found)

  walk_reaches :
      (fuel : ℕ) (id x : String) (ids : List String)
      → Below tenant nodes id x
      → collect_subtree_node_ids fuel id tenant nodes ≡ some ids
      → (less : ℕ) × (below : List String) × (less ≤ fuel)
        × (collect_subtree_node_ids less x tenant nodes ≡ some below)
  unfolding collect_subtree_node_ids
  walk_reaches fuel id x ids (here _) h = (fuel, ids, omega arith, h)
  walk_reaches zero id x ids (under _ _ child present is b) h = absurd (cc)
  walk_reaches (suc fuel) id x ids (under _ _ child present is b) h =
      let (cids, found) = walk_step fuel id child ids present is h in
      let (less, below, le, ends) = walk_reaches fuel child.id x cids b found in
      (less, below, omega arith, ends)

  module _ (id : String) (child : KnowledgeNode) (present : In child nodes)
      (is : is_child id tenant child ≡ true) (b : Below tenant nodes child.id id) where
    no_end :
        (bound fuel : ℕ) (ids : List String)
        → fuel ≤ bound
        → collect_subtree_node_ids fuel id tenant nodes ≡ some ids
        → ⊥
    unfolding collect_subtree_node_ids
    no_end bound zero ids le h = cc
    no_end zero (suc fuel) ids le h = omega arith
    no_end (suc bound) (suc fuel) ids le h =
        let (cids, found) = walk_step fuel id child ids present is h in
        let (less, below, lower, ends) = walk_reaches fuel child.id id cids b found in
        no_end bound less below (omega arith) ends

    -- Where a node stands below itself, the walk from it never ends.
    pub collect_subtree_node_ids_diverges :
        (fuel : ℕ) → collect_subtree_node_ids fuel id tenant nodes ≡ none
    collect_subtree_node_ids_diverges fuel =
        elim (Option-cases (collect_subtree_node_ids fuel id tenant nodes)) [
          | inl e ↦ e
          | inr (ids, e) ↦ absurd (no_end fuel fuel ids (omega arith) e)
        ]
