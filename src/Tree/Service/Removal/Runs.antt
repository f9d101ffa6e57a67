-- ===== src/Tree/Service/Removal/Runs.antt =====
-- How a removal runs: the cases in which it returns or throws.
use openviking_admin.Prelude.{
  ◌∙◌, ap, ℕ, suc, String, ◌≡◌, refl, sym, ◌⊎◌, inl, inr, Bool, Option, none, some, arith,
  if◌then◌else◌, Option-cases, Result, ok, err, is_ok,
}
use openviking_admin.Tree.Node.{KnowledgeNode}
use openviking_admin.Tree.Table.{find_children, remove_row}
use openviking_admin.Tree.Rows.{find_one-id}
use openviking_admin.Tree.Service.{
  to_model, find_one, Environment, TreeState, TreeError, tenant_condition, find_node,
  find_one_with_tenant_routing,
}
use openviking_admin.Tree.Service.Removal.{
  Outcome, after, remove_self, remove_each, remove_node, delete_open_viking_resource,
  should_delete_recursively,
}

pub after-cases :
    (o : Outcome) (next : TreeState → Outcome) (r : Result TreeError (Unit {0})) (t : TreeState)
    → after o next ≡ some (r, t)
    → ((e : TreeError) × (r ≡ err e) × (o ≡ some (err e, t)))
      ⊎ ((s : TreeState) × (o ≡ some (ok tt, s)) × (next s ≡ some (r, t)))
after-cases none next r t h = absurd (cc)
after-cases (some (err e, s)) next r t h = inl (e, cc, cc)
after-cases (some (ok _, s)) next r t h = inr (s, refl, h)

find_one_with_tenant_routing-id :
    (env : Environment) (id : String) (tenant : Option String) (node : KnowledgeNode)
    → find_one_with_tenant_routing env id tenant ≡ some node
    → node.id ≡ id
unfolding find_one_with_tenant_routing
find_one_with_tenant_routing-id env id none node h = absurd (cc)
find_one_with_tenant_routing-id env id (some t) node h = elim (Option-cases (env.routed t)) [
  | inl e ↦ ground (arith, e)
  | inr (rows, e) ↦ ground (arith, e, find_one-id id (some t) rows node)
]

found-id :
    (id : String) (row node : KnowledgeNode)
    → row.id ≡ id
    → ◌≡◌ {A = Result TreeError KnowledgeNode} (ok (to_model row)) (ok node)
    → node.id ≡ id
found-id id row node e same =
    let found : to_model row ≡ node = cc in ap (λ (n : KnowledgeNode). n.id) (sym found) ∙ e

pub find_node-id :
    (env : Environment) (id : String) (tenant : Option String) (s : TreeState)
    (node : KnowledgeNode)
    → find_node env id tenant s ≡ ok node
    → node.id ≡ id
unfolding find_node
find_node-id env id tenant s node h =
    elim (Option-cases (find_one id (tenant_condition tenant) s.nodes)) [
      | inr (row, e) ↦
          let same : find_node env id tenant s ≡ ok (to_model row) = rw (find_node, e) refl in
          found-id id row node (find_one-id id (tenant_condition tenant) s.nodes row e)
            (sym same ∙ h)
      | inl e ↦ elim (Option-cases (find_one_with_tenant_routing env id tenant)) [
        | inl none_there ↦ absurd (ground (arith, e, none_there, h))
        | inr (row, f) ↦
            let same : find_node env id tenant s ≡ ok (to_model row) = rw (find_node, e, f) refl in
            found-id id row node (find_one_with_tenant_routing-id env id tenant row f)
              (sym same ∙ h)
      ]
    ]

pub delete_open_viking_resource-nodes :
    (env : Environment) (uri : Option String) (recursive : Bool) (s : TreeState)
    → (delete_open_viking_resource env uri recursive s).1.nodes ≡ s.nodes
unfolding delete_open_viking_resource
delete_open_viking_resource-nodes env none recursive s = refl
delete_open_viking_resource-nodes env (some uri) recursive s = ground arith

-- The table after a node was removed by itself.
remove_self-nodes :
    (env : Environment) (skip : Bool) (tenant : Option String) (node : KnowledgeNode)
    (s t : TreeState) (r : Result TreeError (Unit {0}))
    → remove_self env skip tenant node s ≡ some (r, t)
    → t.nodes ≡ (if is_ok r then remove_row node.id s.nodes else s.nodes)
unfolding remove_self
remove_self-nodes env skip tenant node s t r h = ground (
  arith,
  delete_open_viking_resource-nodes env node.viking_uri (should_delete_recursively node) s,
)

module _ (env : Environment) (skip : Bool) (tenant : Option String) where
  abbrev pub children_gone : ℕ → String → TreeState → Outcome
  children_gone fuel id s =
      remove_each (λ child. remove_node env skip fuel child tenant)
        (find_children id tenant s.nodes) s

  -- How a removal of a node went.
  pub data Removal (fuel : ℕ) (id : String) (s t : TreeState)
      : Result TreeError (Unit {0}) → Type 0 where
    unknown : (e : TreeError) → s ≡ t → Removal fuel id s t (err e)
    stopped :
        (e : TreeError) → children_gone fuel id s ≡ some (err e, t) → Removal fuel id s t (err e)
    refused :
        (e : TreeError) (u : TreeState)
        → children_gone fuel id s ≡ some (ok tt, u)
        → u.nodes ≡ t.nodes
        → Removal fuel id s t (err e)
    removed :
        (u : TreeState)
        → children_gone fuel id s ≡ some (ok tt, u)
        → remove_row id u.nodes ≡ t.nodes
        → Removal fuel id s t (ok tt)

  run_of_self :
      (fuel : ℕ) (id : String) (s u t : TreeState) (r : Result TreeError (Unit {0}))
      → children_gone fuel id s ≡ some (ok tt, u)
      → t.nodes ≡ (if is_ok r then remove_row id u.nodes else u.nodes)
      → Removal fuel id s t r
  run_of_self fuel id s u t (ok _) h e = removed u h (sym e)
  run_of_self fuel id s u t (err x) h e = refused x u h (sym e)

  run_of_found :
      (fuel : ℕ) (id : String) (s t : TreeState) (r : Result TreeError (Unit {0}))
      (found : Result TreeError KnowledgeNode)
      → ((node : KnowledgeNode) → found ≡ ok node → node.id ≡ id)
      → elim found as (λ _. Outcome) [
        | err e ↦ some (err e, s)
        | ok node ↦ after (children_gone fuel id s) (remove_self env skip tenant node)
      ]
        ≡ some (r, t)
      → Removal fuel id s t r
  run_of_found fuel id s t (err x) (err e) own h = unknown x (cc)
  run_of_found fuel id s t (ok x) (err e) own h = absurd (cc)
  run_of_found fuel id s t r (ok node) own h =
      elim (after-cases (children_gone fuel id s) (remove_self env skip tenant node) r t h) [
        | inl (e, is, first) ↦ rw is (stopped e first)
        | inr (u, first, rest) ↦
            run_of_self fuel id s u t r first
              (rw (own node refl) at (remove_self-nodes env skip tenant node u t r rest))
      ]

  pub run_of :
      (fuel : ℕ) (id : String) (s t : TreeState) (r : Result TreeError (Unit {0}))
      → remove_node env skip (suc fuel) id tenant s ≡ some (r, t)
      → Removal fuel id s t r
  unfolding remove_node
  run_of fuel id s t r h =
      run_of_found fuel id s t r (find_node env id tenant s) (find_node-id env id tenant s) h
