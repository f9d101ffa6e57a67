-- ===== src/Tree/Service/Removal/Ends.antt =====
-- Removals end: enough fuel gives a result, and an open document below the node stops the removal
-- before it changes anything.
use openviking_admin.Prelude.{
  ◌||◌, Bool, true, false, err, ℕ, zero, suc, ◌<◌, String, ◌≡◌, refl, inl, inr, Bool, Option, none,
  some, List, [], ◌∷◌, arith, Result, ok, err, In,
}
use openviking_admin.Session.{Locked, assert_no_active_session_in_nodes}
use openviking_admin.Tree.Node.{KnowledgeNode}
use openviking_admin.Tree.Table.{find_children}
use openviking_admin.Tree.Rows.{find_children_sound}
use openviking_admin.Tree.Service.{
  config_failed, Environment, TreeState, TreeError, locked, find_node, collect_subtree_node_ids,
}
use openviking_admin.Tree.Service.Walks.{Ranks, collect_subtree_node_ids_ends}
use openviking_admin.Tree.Service.Removal.{
  with_ov_config, Outcome, after, remove_self, remove_each, remove_node, remove,
  OpenVikingDeleteContext,
}
use openviking_admin.Tree.Service.Removal.Kept.{IsLocal, remove_node-IsLocal}

abbrev pub Ends : Outcome → Type 0
Ends o = (r : Result TreeError (Unit {0})) × (t : TreeState) × (o ≡ some (r, t))

after-Ends :
    (o : Outcome) (next : TreeState → Outcome)
    → Ends o
    → ((s : TreeState) → o ≡ some (ok tt, s) → Ends (next s))
    → Ends (after o next)
after-Ends none next (r, t, h) then_ends = absurd (cc)
after-Ends (some (err e, s)) next h then_ends = (err e, s, refl)
after-Ends (some (ok tt, s)) next h then_ends = then_ends s refl

after-some-Ends :
    (p : Result TreeError (Unit {0}) × TreeState)
    (next : TreeState → Result TreeError (Unit {0}) × TreeState)
    → Ends (after (some p) (λ t. some (next t)))
after-some-Ends (err e, s) next = (err e, s, refl)
after-some-Ends (ok tt, s) next = ((next s).0, (next s).1, refl)

found-Ends :
    (s : TreeState) (o : Outcome) (next : KnowledgeNode → Outcome)
    (found : Result TreeError KnowledgeNode)
    → ((node : KnowledgeNode) → Ends (next node))
    → Ends (elim found as (λ _. Outcome) [ err e ↦ some (err e, s) | ok node ↦ next node ])
found-Ends s o next (err e) h = (err e, s, refl)
found-Ends s o next (ok node) h = h node

collected-Ends :
    (walked : Option (List String)) (next : List String → Outcome)
    → ((ids : List String) × (walked ≡ some ids))
    → ((ids : List String) → Ends (next ids))
    → Ends (elim walked as (λ _. Outcome) [ none ↦ none | some ids ↦ next ids ])
collected-Ends none next (ids, h) each = absurd (cc)
collected-Ends (some ids) next h each = each ids

unlocked-Ends :
    (s : TreeState) (lock : Result Locked (Unit {0})) (next : Outcome)
    → Ends next
    → Ends (elim lock as (λ _. Outcome) [ err e ↦ some (err (locked e), s) | ok _ ↦ next ])
unlocked-Ends s (err e) next h = (err (locked e), s, refl)
unlocked-Ends s (ok _) next h = h

next-Ends :
    (o : Outcome) (next : TreeState → Result TreeError (Unit {0}) × TreeState)
    → Ends o
    → Ends (after o (λ t. some (next t)))
next-Ends o next h = after-Ends o (λ t. some (next t)) h (λ t _. ((next t).0, (next t).1, refl))

module _ (env : Environment) (skip : Bool) (tenant : Option String) (rank : String → ℕ) where
  remove_each-Ends :
      (remove_child : String → TreeState → Outcome) (children : List KnowledgeNode) (s : TreeState)
      → IsLocal tenant remove_child
      → Ranks tenant s.nodes rank
      → ((child : KnowledgeNode)
          → In child children
          → (u : TreeState) → Ranks tenant u.nodes rank
          → Ends (remove_child child.id u))
      → Ends (remove_each remove_child children s)
  unfolding remove_each
  remove_each-Ends remove_child [] s loc ranks each = (ok tt, s, refl)
  remove_each-Ends remove_child (child ∷ children) s loc ranks each =
      after-Ends (remove_child child.id s) (remove_each remove_child children)
        (each child (inl refl) s ranks)
        (λ u h.
          remove_each-Ends remove_child children u loc
            (λ p c m is. ranks p c ((loc child.id s u (ok tt) h).0 c m) is) (λ c m. each c (inr m)))

  remove_self-Ends :
      (node : KnowledgeNode) (s : TreeState) → Ends (remove_self env skip tenant node s)
  unfolding remove_self
  remove_self-Ends node s = after-some-Ends _ _

  pub remove_node-Ends :
      (fuel : ℕ) (id : String) (s : TreeState)
      → Ranks tenant s.nodes rank
      → rank id < fuel
      → (r : Result TreeError (Unit {0})) × (t : TreeState) × (remove_node env skip fuel id tenant s
          ≡ some (r, t))
  unfolding remove_node
  remove_node-Ends zero id s ranks lt = absurd (omega arith)
  remove_node-Ends (suc fuel) id s ranks lt =
      found-Ends s none _ (find_node env id tenant s) (λ node.
        after-Ends _ (remove_self env skip tenant node)
          (remove_each-Ends _ (find_children id tenant s.nodes) s
            (remove_node-IsLocal env skip tenant fuel) ranks
            (λ child cm u below.
              let (present, is) = find_children_sound id tenant child s.nodes cm in
              remove_node-Ends fuel child.id u below (omega (arith, ranks id child present is))))
          (λ u h. remove_self-Ends node u))

with_ov_config-Ends :
    (known : Bool) (s : TreeState) (next : Outcome) → Ends next → Ends (with_ov_config known s next)
with_ov_config-Ends false s next h = (err config_failed, s, refl)
with_ov_config-Ends true s next h = h

module _ (env : Environment) (context : OpenVikingDeleteContext) (tenant : Option String)
    (rank : String → ℕ) where
  -- `remove` ends in a tree of finite height, on fuel above the rank of its node: it returns or
  -- throws, whatever is found, locked or answered by the engine.
  pub remove-Ends :
      (fuel : ℕ) (id : String) (s : TreeState)
      → Ranks tenant s.nodes rank
      → rank id < fuel
      → (r : Result TreeError (Unit {0})) × (t : TreeState) × (remove env context fuel id tenant s
          ≡ some (r, t))
  unfolding remove
  remove-Ends fuel id s ranks lt = found-Ends s none _ (find_node env id tenant s) (λ node.
      collected-Ends (collect_subtree_node_ids fuel id tenant s.nodes) _
        (collect_subtree_node_ids_ends tenant s.nodes rank ranks fuel id lt)
        (λ ids. unlocked-Ends s (assert_no_active_session_in_nodes ids s.sessions) _ (
          with_ov_config-Ends (context.has_ov_config || env.resolves_ov_config) s _ (
            next-Ends (remove_node env context.skip_open_viking fuel id tenant s) _
              (remove_node-Ends env context.skip_open_viking tenant rank fuel id s ranks lt)))))
