-- ===== src/Tree/Rows.antt =====
-- Which rows the queries of the table find and keep.
use openviking_admin.Prelude.{
  In-if, String, ◌≡◌, sym, ap, ◌∙◌, ◌≢◌, inl, inr, Bool, true, ◌&&◌, Option, some, List, [], ◌∷◌,
  arith, eq_iff, str_eq, str_eq→≡, Bool-cases, In,
}
use openviking_admin.Tree.Node.{KnowledgeNode}
use openviking_admin.Tree.Table.{opt_eq, in_tenant, find_one, find_children, remove_row}

-- The row matches `{ parentId, tenantId }`.
abbrev pub is_child : String → Option String → KnowledgeNode → Bool
is_child parent tenant node = opt_eq node.parent_id (some parent) && in_tenant tenant node

pub find_children_sound :
    (parent : String) (tenant : Option String) (y : KnowledgeNode) (nodes : List KnowledgeNode)
    → In y (find_children parent tenant nodes)
    → In y nodes × (is_child parent tenant y ≡ true)
unfolding find_children
find_children_sound parent tenant y [] h = absurd h
find_children_sound parent tenant y (x ∷ nodes) h =
    elim ((In-if y x (is_child parent tenant x) (find_children parent tenant nodes)).0 h) [
      | inl (b, e) ↦ (inl e, ap (is_child parent tenant) (sym e) ∙ b)
      | inr m ↦ (
        inr (find_children_sound parent tenant y nodes m).0,
        (find_children_sound parent tenant y nodes m).1,
      )
    ]

pub find_children_complete :
    (parent : String) (tenant : Option String) (y : KnowledgeNode) (nodes : List KnowledgeNode)
    → In y nodes
    → is_child parent tenant y ≡ true
    → In y (find_children parent tenant nodes)
unfolding find_children
find_children_complete parent tenant y [] h c = absurd h
find_children_complete parent tenant y (x ∷ nodes) (inl e) c =
    (In-if y x (is_child parent tenant x) (find_children parent tenant nodes)).1
      (inl (ap (is_child parent tenant) e ∙ c, e))
find_children_complete parent tenant y (x ∷ nodes) (inr m) c =
    (In-if y x (is_child parent tenant x) (find_children parent tenant nodes)).1
      (inr (find_children_complete parent tenant y nodes m c))

pub remove_row_sound :
    (id : String) (y : KnowledgeNode) (nodes : List KnowledgeNode)
    → In y (remove_row id nodes)
    → In y nodes × (y.id ≢ id)
unfolding remove_row
remove_row_sound id y [] h = absurd h
remove_row_sound id y (x ∷ nodes) h = elim (Bool-cases (str_eq x.id id)) [
  | inl same ↦ let (m, d) = remove_row_sound id y nodes (rw same at h) in (inr m, d)
  | inr other ↦ elim (rw other at h) as (λ _. In y (x ∷ nodes) × (y.id ≢ id)) [
    | inl e ↦ (inl e, λ same. ground (arith, e, same, other, eq_iff x.id id))
    | inr m ↦ let (n, d) = remove_row_sound id y nodes m in (inr n, d)
  ]
]

pub remove_row_complete :
    (id : String) (y : KnowledgeNode) (nodes : List KnowledgeNode)
    → In y nodes
    → y.id ≢ id
    → In y (remove_row id nodes)
unfolding remove_row
remove_row_complete id y [] h d = absurd h
remove_row_complete id y (x ∷ nodes) h d = elim (Bool-cases (str_eq x.id id)) [
  | inl same ↦ elim h [
    | inl e ↦ absurd (d (ap (λ z. z.id) (sym e) ∙ str_eq→≡ x.id id same))
    | inr m ↦ rw same (remove_row_complete id y nodes m d)
  ]
  | inr other ↦ elim h [
    | inl e ↦ rw other (inl e)
    | inr m ↦ rw other (inr (remove_row_complete id y nodes m d))
  ]
]

pub find_one-id :
    (id : String) (tenant : Option String) (nodes : List KnowledgeNode) (node : KnowledgeNode)
    → find_one id tenant nodes ≡ some node
    → node.id ≡ id
unfolding find_one
find_one-id id tenant [] node h = absurd (cc)
find_one-id id tenant (x ∷ nodes) node h =
    ground (arith, eq_iff x.id id, find_one-id id tenant nodes node)
