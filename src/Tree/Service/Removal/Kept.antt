-- ===== src/Tree/Service/Removal/Kept.antt =====
-- What a removal leaves in the table, whether it succeeds or throws.
use openviking_admin.Prelude.{
  ℕ, zero, suc, String, ◌≡◌, refl, sym, inl, inr, Bool, Option, some, List, [], ◌∷◌, Result, ok,
  err, In,
}
use openviking_admin.Tree.Node.{KnowledgeNode}
use openviking_admin.Tree.Table.{find_children}
use openviking_admin.Tree.Rows.{find_children_sound, remove_row_sound, remove_row_complete}
use openviking_admin.Tree.Service.{Environment, TreeState, TreeError}
use openviking_admin.Tree.Service.Walks.{Below, here, under}
use openviking_admin.Tree.Service.Removal.{Outcome, remove_each, remove_node}
use openviking_admin.Tree.Service.Removal.Runs.{
  after-cases, children_gone, Removal, unknown, stopped, refused, removed, run_of,
}

abbrev pub Shrinks : TreeState → TreeState → Type 0
Shrinks s t = (y : KnowledgeNode) → In y t.nodes → In y s.nodes

pub Below-Shrinks :
    (tenant : Option String) (s t : TreeState) (id x : String)
    → Shrinks s t
    → Below tenant t.nodes id x
    → Below tenant s.nodes id x
Below-Shrinks tenant s t id x sh (here _) = here id
Below-Shrinks tenant s t id x sh (under _ _ child present is b) =
    under id x child (sh child present) is (Below-Shrinks tenant s t child.id x sh b)

-- Nothing but what stands below the removed node leaves the table.
abbrev pub IsLocal : Option String → (String → TreeState → Outcome) → Type 0
IsLocal tenant remove =
    (id : String) (s t : TreeState) (r : Result TreeError (Unit {0}))
    → remove id s ≡ some (r, t)
    → Shrinks s t
      × ((y : KnowledgeNode) → In y s.nodes → (Below tenant s.nodes id y.id → ⊥) → In y t.nodes)

pub remove_each-IsLocal :
    (tenant : Option String) (remove : String → TreeState → Outcome)
    → IsLocal tenant remove
    → (children : List KnowledgeNode) (s t : TreeState) (r : Result TreeError (Unit {0}))
    → remove_each remove children s ≡ some (r, t)
    → Shrinks s t
      × ((y : KnowledgeNode)
          → In y s.nodes
          → ((child : KnowledgeNode) → In child children → Below tenant s.nodes child.id y.id → ⊥)
          → In y t.nodes)
unfolding remove_each
remove_each-IsLocal tenant remove loc [] s t r h =
    let e : s ≡ t = cc in (λ y m. rw e m, λ y m d. rw (sym e) m)
remove_each-IsLocal tenant remove loc (child ∷ children) s t r h =
    elim (after-cases (remove child.id s) (remove_each remove children) r t h) [
      | inl (e, is, first) ↦
          let (sh, keep) = loc child.id s t (err e) first in
          (sh, λ y m d. keep y m (d child (inl refl)))
      | inr (u, first, rest) ↦
          let (sh, keep) = loc child.id s u (ok tt) first in
          let (shs, keeps) = remove_each-IsLocal tenant remove loc children u t r rest in
          (
            λ y m. sh y (shs y m),
            λ y m d.
                keeps y (keep y m (d child (inl refl)))
                  (λ c cm b. d c (inr cm) (Below-Shrinks tenant s u c.id y.id sh b)),
          )
    ]

module _ (env : Environment) (skip : Bool) (tenant : Option String) where
  unfoldable pub Kept : String → TreeState → TreeState → Type 0
  Kept id s t =
      (y : KnowledgeNode) → In y s.nodes → (Below tenant s.nodes id y.id → ⊥) → In y t.nodes

  pub children-IsLocal :
      (fuel : ℕ) (id : String) (s u : TreeState) (r : Result TreeError (Unit {0}))
      → IsLocal tenant (λ child. remove_node env skip fuel child tenant)
      → children_gone env skip tenant fuel id s ≡ some (r, u)
      → Shrinks s u × Kept id s u
  unfolding Kept
  children-IsLocal fuel id s u r loc h =
      let (sh, keep) = remove_each-IsLocal tenant _ loc (find_children id tenant s.nodes) s u r h in
      (
        sh,
        λ y m d. keep y m (λ child cm b.
            let (present, is) = find_children_sound id tenant child s.nodes cm in
            d (under id y.id child present is b)),
      )

  remove_self-IsLocal :
      (fuel : ℕ) (id : String) (s t : TreeState) (r : Result TreeError (Unit {0}))
      → IsLocal tenant (λ child. remove_node env skip fuel child tenant)
      → Removal env skip tenant fuel id s t r
      → Shrinks s t × Kept id s t
  unfolding Kept
  remove_self-IsLocal fuel id s t r loc (unknown e same) =
      (λ y m. rw same m, λ y m d. rw (sym same) m)
  remove_self-IsLocal fuel id s t r loc (stopped e h) = children-IsLocal fuel id s t (err e) loc h
  remove_self-IsLocal fuel id s t r loc (refused e u h same) =
      let (sh, keep) = children-IsLocal fuel id s u (ok tt) loc h in
      (λ y m. sh y (rw (sym same) at m), λ y m d. rw same at (keep y m d))
  remove_self-IsLocal fuel id s t r loc (removed u h same) =
      let (sh, keep) = children-IsLocal fuel id s u (ok tt) loc h in
      (
        λ y m. sh y (remove_row_sound id y u.nodes (rw (sym same) at m)).0,
        λ y m d.
            rw same at
              (remove_row_complete id y u.nodes (keep y m d) (λ e. d (rw (sym e) (here y.id)))),
      )

  pub remove_node-IsLocal : (fuel : ℕ) → IsLocal tenant (λ id. remove_node env skip fuel id tenant)
  unfolding remove_node Kept
  remove_node-IsLocal zero id s t r h = absurd (cc)
  remove_node-IsLocal (suc fuel) id s t r h =
      remove_self-IsLocal fuel id s t r (remove_node-IsLocal fuel)
        (run_of env skip tenant fuel id s t r h)
