-- ===== src/Tree/Service/Updates/Rows.antt =====
-- What saving a row does to the table, and which fields the saved row has.
use openviking_admin.Prelude.{
  String, ◌≡◌, refl, sym, ap, ◌∙◌, ◌≢◌, ◌↔◌, inl, inr, true, Option, none, some, List, [], ◌∷◌,
  arith, str_eq, str_eq_refl, str_eq→≡, Bool-cases, In,
}
use openviking_admin.Tree.Node.{KnowledgeNode}
use openviking_admin.Tree.Table.{opt_eq, save_row}
use openviking_admin.Tree.Service.Updates.{saved_row}

pub opt_eq_refl : (o : Option String) → opt_eq o o ≡ true
opt_eq_refl none = refl
opt_eq_refl (some s) = str_eq_refl s

pub opt_eq→≡ : (o p : Option String) → opt_eq o p ≡ true → o ≡ p
opt_eq→≡ none none h = refl
opt_eq→≡ (some s) (some t) h = ap some (str_eq→≡ s t h)
opt_eq→≡ none (some t) h = cc
opt_eq→≡ (some s) none h = cc

pub save_row_others :
    (node : KnowledgeNode) (rows : List KnowledgeNode) (y : KnowledgeNode)
    → y.id ≢ node.id
    → In y (save_row node rows) ↔ In y rows
unfolding save_row
save_row_others node [] y d =
    (λ m. elim m [ inl e ↦ absurd (d (ap (λ n. n.id) (sym e))) | inr x ↦ x ], λ m. absurd m)
save_row_others node (row ∷ rows) y d = elim (Bool-cases (str_eq row.id node.id)) [
  | inl same ↦ rw same (
    λ m. elim m [ inl e ↦ absurd (d (ap (λ n. n.id) (sym e))) | inr x ↦ inr x ],
    λ m. elim m [
      | inl e ↦ absurd (d (ap (λ n. n.id) (sym e) ∙ str_eq→≡ row.id node.id same))
      | inr x ↦ inr x
    ],
  )
  | inr other ↦ rw other (
    λ m. elim m [ inl e ↦ inl e | inr x ↦ inr ((save_row_others node rows y d).0 x) ],
    λ m. elim m [ inl e ↦ inl e | inr x ↦ inr ((save_row_others node rows y d).1 x) ],
  )
]

pub In-save_row :
    (node : KnowledgeNode) (rows : List KnowledgeNode)
    → In (saved_row node rows) (save_row node rows)
unfolding save_row saved_row
In-save_row node [] = inl refl
In-save_row node (row ∷ rows) = elim (Bool-cases (str_eq row.id node.id)) [
  | inl same ↦ rw same (inl refl)
  | inr other ↦ rw other (inr (In-save_row node rows))
]

pub saved_row-content_uri :
    (node : KnowledgeNode) (rows : List KnowledgeNode)
    → (saved_row node rows).content_uri ≡ node.content_uri
unfolding saved_row
saved_row-content_uri node [] = refl
saved_row-content_uri node (row ∷ rows) = ground (arith, saved_row-content_uri node rows)

pub saved_row-id :
    (node : KnowledgeNode) (rows : List KnowledgeNode) → (saved_row node rows).id ≡ node.id
unfolding saved_row
saved_row-id node [] = refl
saved_row-id node (row ∷ rows) = ground (arith, saved_row-id node rows)

pub saved_row-parent_id :
    (node : KnowledgeNode) (rows : List KnowledgeNode)
    → (saved_row node rows).parent_id ≡ node.parent_id
unfolding saved_row
saved_row-parent_id node [] = refl
saved_row-parent_id node (row ∷ rows) = ground (arith, saved_row-parent_id node rows)

pub saved_row-viking_uri :
    (node : KnowledgeNode) (rows : List KnowledgeNode) (uri : String)
    → node.viking_uri ≡ some uri
    → (saved_row node rows).viking_uri ≡ some uri
unfolding saved_row
saved_row-viking_uri node [] uri h = h
saved_row-viking_uri node (row ∷ rows) uri h =
    ground (arith, h, saved_row-viking_uri node rows uri h)
