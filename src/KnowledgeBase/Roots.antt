-- ===== src/KnowledgeBase/Roots.antt =====
-- The nodes of a base stand below its roots, and what removing the roots leaves.
use openviking_admin.Prelude.{
  ℕ, zero, suc, ◌<◌, String, ◌≡◌, refl, sym, ◌↔◌, inl, inr, Bool, true, false, ◌&&◌, Option, none,
  some, List, [], ◌∷◌, arith, eq_iff, str_eq, str_eq→≡, Bool-cases, Option-cases, ok, In, In-filter,
}
use openviking_admin.Tree.Node.{KnowledgeNode}
use openviking_admin.Tree.Table.{opt_eq, in_tenant}
use openviking_admin.Tree.Rows.{is_child}
use openviking_admin.Tree.Service as Tree
use openviking_admin.Tree.Service.{
  KnowledgeBaseRow, KnowledgeBaseStatus, active, building, archived, TreeState, TreeError,
  tenant_condition,
}
use openviking_admin.Tree.Service.Walks.{Below, here, under}
use openviking_admin.Tree.Service.Removal as Removal
use openviking_admin.Tree.Service.Removal.{Outcome, remove_each, delete_open_viking_resource}
use openviking_admin.Tree.Service.Removal.Runs.{after-cases}
use openviking_admin.Tree.Service.Removal.Kept.{Below-Shrinks}
use openviking_admin.Tree.Service.Removal.Cleared.{HasPrimaryKey}
use openviking_admin.Tree.Service.Removal.Locks.{remove_success}
use openviking_admin.KnowledgeBase.{
  is_in_base, find_by_kb, has_id, is_root, root_nodes, removal_context, remove_roots,
}

pub Below-trans :
    (tenant : Option String) (nodes : List KnowledgeNode) (a b c : String)
    → Below tenant nodes a b
    → Below tenant nodes b c
    → Below tenant nodes a c
Below-trans tenant nodes a b c (here _) below = below
Below-trans tenant nodes a b c (under _ _ child present is rest) below =
    under a c child present is (Below-trans tenant nodes child.id b c rest below)

-- The rows that a removal at `root` leaves.
abbrev Leaves : Option String → String → TreeState → TreeState → Type 0
Leaves tenant root s u =
    (y : KnowledgeNode) → In y u.nodes ↔ (In y s.nodes × (Below tenant s.nodes root y.id → ⊥))

Leaves-Below :
    (tenant : Option String) (root : String) (s u : TreeState) (r x : String)
    → Leaves tenant root s u
    → (Below tenant s.nodes root x → ⊥)
    → Below tenant s.nodes r x
    → Below tenant u.nodes r x
Leaves-Below tenant root s u r x left apart (here _) = here r
Leaves-Below tenant root s u r x left apart (under _ _ child present is b) =
    under r x child
      ((left child).1
        (present, λ above. apart (Below-trans tenant s.nodes root child.id x above b)))
      is (Leaves-Below tenant root s u child.id x left apart b)

module _ (env : Tree.Environment) (fuel : ℕ) (tenant : Option String) where
  pub remove_roots_iff :
      (roots : List KnowledgeNode) (s t : TreeState)
      → HasPrimaryKey s.nodes
      → remove_roots env fuel tenant roots s ≡ some (ok tt, t)
      → (y : KnowledgeNode)
      → In y t.nodes
        ↔ (In y s.nodes × ((r : KnowledgeNode) → In r roots → Below tenant s.nodes r.id y.id → ⊥))
  unfolding remove_each
  remove_roots_iff [] s t key h y =
      let e : s ≡ t = cc in ((λ m. (rw e m, λ r n. absurd n)), (λ (m, d). rw (sym e) m))
  remove_roots_iff (root ∷ roots) s t key h y =
      elim (after-cases (Removal.remove env removal_context fuel root.id tenant s)
        (remove_roots env fuel tenant roots) (ok tt) t h) [
          | inl (e, is, first) ↦ absurd (cc)
          | inr (u, first, rest) ↦
              let left : Leaves tenant root.id s u =
                (remove_success env removal_context fuel root.id tenant s u key first).1 in
              let still : HasPrimaryKey u.nodes =
                λ a b am bm e. key a b ((left a).0 am).0 ((left b).0 bm).0 e in
              let others = remove_roots_iff roots u t still rest y in
              (
                λ m.
                    let (mu, apart) = others.0 m in
                    let (ms, off) = (left y).0 mu in
                    (
                      ms,
                      λ r n b. elim n [
                        | inl e ↦ off (rw e b)
                        | inr k ↦ apart r k (Leaves-Below tenant root.id s u r.id y.id left off b)
                      ],
                    ),
                λ (m, apart). others.1 (
                  (left y).1 (m, apart root (inl refl)),
                  λ r k b.
                      apart r (inr k)
                        (Below-Shrinks tenant s u r.id y.id (λ z n. ((left z).0 n).0) b),
                ),
              )
        ]

-- Each row stands deeper than the row that it names as its parent.
abbrev pub IsDeep : Option String → List KnowledgeNode → (String → ℕ) → Type 0
IsDeep tenant nodes depth =
    (p : String) (child : KnowledgeNode)
    → In child nodes
    → is_child p tenant child ≡ true
    → depth p < depth child.id

pub find_by_kb-In :
    (kb_id : String) (tenant : Option String) (nodes : List KnowledgeNode) (y : KnowledgeNode)
    → In y (find_by_kb kb_id tenant nodes) ↔ ((is_in_base kb_id tenant y ≡ true) × In y nodes)
unfolding find_by_kb
find_by_kb-In kb_id tenant nodes y =
    In-filter (is_in_base kb_id tenant) (λ xs. find_by_kb kb_id tenant xs) refl (λ x xs. refl) nodes
      y

pub root_nodes-In :
    (all nodes : List KnowledgeNode) (y : KnowledgeNode)
    → In y (root_nodes all nodes) ↔ ((is_root all y ≡ true) × In y nodes)
unfolding root_nodes
root_nodes-In all nodes y = In-filter (is_root all) (root_nodes all) refl (λ x xs. refl) nodes y

has_id-In :
    (id : String) (nodes : List KnowledgeNode)
    → has_id id nodes ≡ true
    → (z : KnowledgeNode) × In z nodes × (z.id ≡ id)
unfolding has_id
has_id-In id [] h = absurd (cc)
has_id-In id (node ∷ nodes) h = elim (Bool-cases (str_eq node.id id)) [
  | inl same ↦ (node, inl refl, str_eq→≡ node.id id same)
  | inr other ↦ let (z, m, e) = has_id-In id nodes (rw other at h) in (z, inr m, e)
]

names_parent :
    (parent : Option String) (p z : String) (b : Bool)
    → parent ≡ some p
    → z ≡ p
    → b ≡ true
    → (opt_eq parent (some z) && b) ≡ true
names_parent none p z b h e c = absurd (cc)
names_parent (some q) p z b h e c = ground (arith, eq_iff q z)

in_tenant_of_base :
    (kb_id : String) (tenant : Option String) (y : KnowledgeNode)
    → (str_eq y.kb_id kb_id && in_tenant tenant y) ≡ true
    → in_tenant tenant y ≡ true
in_tenant_of_base kb_id tenant y h = ground arith

module _ (kb_id : String) (tenant : Option String) (plain : tenant_condition tenant ≡ tenant)
    (nodes : List KnowledgeNode) where
  abbrev of_base : List KnowledgeNode
  of_base = find_by_kb kb_id tenant nodes

  parent_of :
      (y : KnowledgeNode)
      → is_in_base kb_id tenant y ≡ true
      → is_root of_base y ≡ false
      → (z : KnowledgeNode) × In z of_base × (is_child z.id tenant y ≡ true)
  parent_of y base h = elim (Option-cases y.parent_id) [
    | inl e ↦ absurd (ground (arith, e, h))
    | inr (p, e) ↦
        let (z, m, same) = has_id-In p of_base (ground arith) in
        let within : in_tenant tenant y ≡ true =
          in_tenant_of_base kb_id tenant y (rw plain at base) in
        (z, m, names_parent y.parent_id p z.id (in_tenant tenant y) e same within)
  ]

  pub covered :
      (depth : String → ℕ) (bound : ℕ) (y : KnowledgeNode)
      → IsDeep tenant nodes depth
      → depth y.id < bound
      → In y nodes
      → is_in_base kb_id tenant y ≡ true
      → (r : KnowledgeNode) × In r (root_nodes of_base of_base) × Below tenant nodes r.id y.id
  covered depth zero y deep lt m base = absurd (omega arith)
  covered depth (suc bound) y deep lt m base = elim (Bool-cases (is_root of_base y)) [
    | inl root ↦ (
      y,
      (root_nodes-In of_base of_base y).1 (root, (find_by_kb-In kb_id tenant nodes y).1 (base, m)),
      here y.id,
    )
    | inr has_parent ↦
        let (z, zm, is) = parent_of y base has_parent in
        let (z_base, zn) = (find_by_kb-In kb_id tenant nodes z).0 zm in
        let (r, rm, b) = covered depth bound z deep (omega (arith, deep z.id y m is)) zn z_base in
        (r, rm, Below-trans tenant nodes r.id z.id y.id b (under z.id y.id y m is (here y.id)))
  ]
