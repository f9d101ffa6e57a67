-- ===== src/Tree/Service/Removal/Cleared.antt =====
-- What a removal that succeeds has taken from the table: all that stands below its node.
use openviking_admin.Prelude.{
  ℕ, zero, suc, String, ◌≡◌, refl, sym, ap, ◌∙◌, ◌≢◌, ◌↔◌, inl, inr, Bool, true, Option, some, List,
  [], ◌∷◌, ok, In,
}
use openviking_admin.Tree.Node.{KnowledgeNode}
use openviking_admin.Tree.Table.{find_children}
use openviking_admin.Tree.Rows.{
  is_child, find_children_complete, remove_row_sound, remove_row_complete,
}
use openviking_admin.Tree.Service.{Environment, TreeState}
use openviking_admin.Tree.Service.Walks.{Below, here, under}
use openviking_admin.Tree.Service.Removal.{Outcome, remove_each, remove_node}
use openviking_admin.Tree.Service.Removal.Runs.{after-cases, Removal, removed, run_of}
use openviking_admin.Tree.Service.Removal.Kept.{
  Shrinks, IsLocal, Kept, remove_each-IsLocal, children-IsLocal, remove_node-IsLocal,
}

abbrev pub Has : String → TreeState → Type 0
Has id s = (row : KnowledgeNode) × In row s.nodes × (row.id ≡ id)

-- No row that is left lost its parent.
abbrev pub KeepsParents : Option String → TreeState → TreeState → Type 0
KeepsParents tenant s t =
    (p : String) (y : KnowledgeNode) → In y t.nodes → is_child p tenant y ≡ true → Has p s → Has p t

-- A removal that succeeds takes its row, and leaves no row without its parent.
abbrev pub IsClean : Option String → (String → TreeState → Outcome) → Type 0
IsClean tenant remove =
    (id : String) (s t : TreeState)
    → remove id s ≡ some (ok tt, t)
    → (Has id t → ⊥) × KeepsParents tenant s t

remove_each-IsClean :
    (tenant : Option String) (remove : String → TreeState → Outcome)
    → IsLocal tenant remove
    → IsClean tenant remove
    → (children : List KnowledgeNode) (s t : TreeState)
    → remove_each remove children s ≡ some (ok tt, t)
    → ((child : KnowledgeNode) → In child children → Has child.id t → ⊥) × KeepsParents tenant s t
unfolding remove_each
remove_each-IsClean tenant remove loc clean [] s t h =
    let e : s ≡ t = cc in (λ child m. absurd m, λ p y m is there. rw (sym e) there)
remove_each-IsClean tenant remove loc clean (child ∷ children) s t h =
    elim (after-cases (remove child.id s) (remove_each remove children) (ok tt) t h) [
      | inl (e, is, first) ↦ absurd (cc)
      | inr (u, first, rest) ↦
          let (gone, parents) = clean child.id s u first in
          let (goes, keeps) = remove_each-IsClean tenant remove loc clean children u t rest in
          let (sh, _) = remove_each-IsLocal tenant remove loc children u t (ok tt) rest in
          (
            λ c m there. elim m [
              | inl same ↦
                  let (row, present, named) = there in
                  gone (row, sh row present, named ∙ ap (λ n. n.id) (sym same))
              | inr later ↦ goes c later there
            ],
            λ p y m is there. keeps p y m is (parents p y (sh y m) is there),
          )
    ]

module _ (env : Environment) (skip : Bool) (tenant : Option String) where
  remove_self-IsClean :
      (fuel : ℕ) (id : String) (s t : TreeState)
      → IsClean tenant (λ child. remove_node env skip fuel child tenant)
      → Removal env skip tenant fuel id s t (ok tt)
      → (Has id t → ⊥)
        × KeepsParents tenant s t
        × ((y : KnowledgeNode) → In y t.nodes → is_child id tenant y ≡ true → ⊥)
  remove_self-IsClean fuel id s t clean (removed u h same) =
      let loc = remove_node-IsLocal env skip tenant fuel in
      let (goes, keeps) =
        remove_each-IsClean tenant _ loc clean (find_children id tenant s.nodes) s u h in
      let (sh, _) = children-IsLocal env skip tenant fuel id s u (ok tt) loc h in
      let left : (y : KnowledgeNode) → In y t.nodes → In y u.nodes × (y.id ≢ id) =
        λ y m. remove_row_sound id y u.nodes (rw (sym same) at m) in
      let childless : (y : KnowledgeNode) → In y t.nodes → is_child id tenant y ≡ true → ⊥ =
        λ y m is.
          goes y (find_children_complete id tenant y s.nodes (sh y (left y m).0) is)
            (y, (left y m).0, refl) in
      (
        λ (row, present, named). (left row present).1 named,
        λ p y m is there.
            let (row, present, named) = keeps p y (left y m).0 is there in
            (
              row,
              rw same at (
                  remove_row_complete id row u.nodes present (λ e.
                    childless y m (ap (λ q. is_child q tenant y) (sym (sym named ∙ e)) ∙ is))),
              named,
            ),
        childless,
      )

  remove_node-IsClean : (fuel : ℕ) → IsClean tenant (λ id. remove_node env skip fuel id tenant)
  unfolding remove_node
  remove_node-IsClean zero id s t h = absurd (cc)
  remove_node-IsClean (suc fuel) id s t h =
      let (gone, parents, childless) =
        remove_self-IsClean fuel id s t (remove_node-IsClean fuel)
          (run_of env skip tenant fuel id s t (ok tt) h) in
      (gone, parents)

-- No two rows share an id.
abbrev pub HasPrimaryKey : List KnowledgeNode → Type 0
HasPrimaryKey nodes = (y z : KnowledgeNode) → In y nodes → In z nodes → y.id ≡ z.id → y ≡ z

module _ (tenant : Option String) (s t : TreeState) (key : HasPrimaryKey s.nodes) (sh : Shrinks s t)
    (parents : KeepsParents tenant s t) where
  gone-Below :
      (id x : String)
      → (Has id t → ⊥)
      → ((y : KnowledgeNode) → In y t.nodes → is_child id tenant y ≡ true → ⊥)
      → Below tenant s.nodes id x
      → Has x t
      → ⊥
  gone-Below id x gone childless (here _) there = gone there
  gone-Below id x gone childless (under _ _ child present is b) there =
      let child_gone : Has child.id t → ⊥ = λ (row, still, named).
        childless row still
          (ap (is_child id tenant) (key row child (sh row still) present named) ∙ is) in
      gone-Below child.id x child_gone
        (λ y m below. child_gone (parents child.id y m below (child, present, refl))) b there

module _ (env : Environment) (skip : Bool) (tenant : Option String) where
  -- A removal that succeeds takes exactly the rows at and below its node: the rows it leaves are
  -- those of before that do not stand below it, where no two rows share an id.
  pub remove_node_iff :
      (fuel : ℕ) (id : String) (s t : TreeState)
      → HasPrimaryKey s.nodes
      → remove_node env skip fuel id tenant s ≡ some (ok tt, t)
      → (y : KnowledgeNode) → In y t.nodes ↔ (In y s.nodes × (Below tenant s.nodes id y.id → ⊥))
  unfolding remove_node Kept
  remove_node_iff zero id s t key h y = absurd (cc)
  remove_node_iff (suc fuel) id s t key h y =
      let (sh, keep) = remove_node-IsLocal env skip tenant (suc fuel) id s t (ok tt) h in
      let (gone, parents, childless) =
        remove_self-IsClean env skip tenant fuel id s t (remove_node-IsClean env skip tenant fuel)
          (run_of env skip tenant fuel id s t (ok tt) h) in
      (
        λ m. (
          sh y m,
          λ b. gone-Below tenant s t key sh parents id y.id gone childless b (y, m, refl),
        ),
        λ (m, d). keep y m d,
      )
