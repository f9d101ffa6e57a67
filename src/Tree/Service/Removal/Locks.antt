-- ===== src/Tree/Service/Removal/Locks.antt =====
-- The lock of a removal: an open document at or below the node stops it before it changes anything.
use openviking_admin.Prelude.{
  ◌||◌, Bool, ℕ, ◌<◌, String, ◌≡◌, refl, sym, ap, ◌∙◌, ◌↔◌, inl, inr, true, false, Option, none,
  some, List, [], ◌∷◌, arith, if◌then◌else◌, Bool-cases, Result, ok, err, In,
}
use openviking_admin.Session.{
  DocumentSessionRegistry, Locked, tree_locked, has_active_session, some_active,
  assert_no_active_session_in_nodes,
}
use openviking_admin.Tree.Node.{KnowledgeNode}
use openviking_admin.Tree.Service.{
  Environment, TreeState, TreeError, locked, find_node, collect_subtree_node_ids,
}
use openviking_admin.Tree.Service.Walks.{
  Below, Ranks, collect_subtree_node_ids_ends, collect_subtree_node_ids_iff,
}
use openviking_admin.Tree.Service.Removal.{
  with_ov_config, Outcome, after, remove_node, remove, refresh_knowledge_base_stats,
  OpenVikingDeleteContext,
}
use openviking_admin.Tree.Service.Removal.Runs.{after-cases}
use openviking_admin.Tree.Service.Removal.Cleared.{HasPrimaryKey, remove_node_iff}

pub some_active_of_member :
    (x : String) (ids : List String) (r : DocumentSessionRegistry)
    → In x ids
    → has_active_session x r ≡ true
    → some_active ids r ≡ true
unfolding some_active
some_active_of_member x [] r m h = absurd m
some_active_of_member x (y ∷ ids) r (inl e) h = rw e (rw h refl)
some_active_of_member x (y ∷ ids) r (inr m) h = ground (arith, some_active_of_member x ids r m h)

pub none_active_of_ok :
    (x : String) (ids : List String) (r : DocumentSessionRegistry)
    → In x ids
    → assert_no_active_session_in_nodes ids r ≡ ok tt
    → has_active_session x r ≡ false
unfolding assert_no_active_session_in_nodes
none_active_of_ok x ids r m h = elim (Bool-cases (has_active_session x r)) [
  | inl active ↦ ground (arith, some_active_of_member x ids r m active)
  | inr idle ↦ idle
]

module _ (env : Environment) (context : OpenVikingDeleteContext) (fuel : ℕ) (id : String)
    (tenant : Option String) (s : TreeState) where
  abbrev refreshed : KnowledgeNode → TreeState → TreeState
  refreshed node t =
      if context.skip_knowledge_base_stats_refresh
      then t
      else refresh_knowledge_base_stats env node.kb_id tenant t

  refreshed-nodes : (node : KnowledgeNode) (t : TreeState) → (refreshed node t).nodes ≡ t.nodes
  unfolding refresh_knowledge_base_stats
  refreshed-nodes node t = ground arith

  abbrev unless_locked : KnowledgeNode → Result Locked (Unit {0}) → Outcome
  unless_locked node lock = elim lock [
    | err e ↦ some (err (locked e), s)
    | ok _ ↦ with_ov_config (context.has_ov_config || env.resolves_ov_config) s (
        after (remove_node env context.skip_open_viking fuel id tenant s)
          (λ t. some (ok tt, refreshed node t)))
  ]

  -- What `remove` does with the ids it collected.
  abbrev go_on : KnowledgeNode → List String → Outcome
  go_on node node_ids = unless_locked node (assert_no_active_session_in_nodes node_ids s.sessions)

  remove_run :
      (node : KnowledgeNode) (ids : List String)
      → find_node env id tenant s ≡ ok node
      → collect_subtree_node_ids fuel id tenant s.nodes ≡ some ids
      → remove env context fuel id tenant s ≡ go_on node ids
  unfolding remove
  remove_run node ids found walked = ground (arith, found, walked)

  -- A removal is refused, and changes nothing, while a document at or below its node is open;
  -- in a tree of finite height, for a node that is found, on fuel above the rank of the node.
  pub remove_locked :
      (rank : String → ℕ) (node : KnowledgeNode) (x : String)
      → Ranks tenant s.nodes rank
      → rank id < fuel
      → find_node env id tenant s ≡ ok node
      → Below tenant s.nodes id x
      → has_active_session x s.sessions ≡ true
      → remove env context fuel id tenant s ≡ some (err (locked tree_locked), s)
  remove_locked rank node x ranks lt found b active =
      let (ids, walked) = collect_subtree_node_ids_ends tenant s.nodes rank ranks fuel id lt in
      let member : In x ids =
        (collect_subtree_node_ids_iff tenant s.nodes fuel id ids x walked).1 b in
      remove_run node ids found walked
      ∙ (unfold assert_no_active_session_in_nodes in
          ground (arith, some_active_of_member x ids s.sessions member active))

  abbrev Removed : TreeState → Type 0
  Removed t =
      (u : TreeState) × (remove_node env context.skip_open_viking fuel id tenant s
        ≡ some (ok tt, u))
      × (u.nodes ≡ t.nodes)

  resolved :
      (known : Bool) (next : Outcome) (t : TreeState)
      → with_ov_config known s next ≡ some (ok tt, t)
      → next ≡ some (ok tt, t)
  resolved false next t h = absurd (cc)
  resolved true next t h = h

  gone_after_lock :
      (node : KnowledgeNode) (t : TreeState)
      → unless_locked node (ok tt) ≡ some (ok tt, t)
      → Removed t
  gone_after_lock node t h =
      elim (after-cases (remove_node env context.skip_open_viking fuel id tenant s)
        (λ u. some (ok tt, refreshed node u)) (ok tt) t
        (resolved (context.has_ov_config || env.resolves_ov_config) _ t h)) [
          | inl (x, is, first) ↦ absurd (cc)
          | inr (u, first, rest) ↦
              let same : refreshed node u ≡ t = cc in
              (u, first, sym (refreshed-nodes node u) ∙ ap (λ v. v.nodes) same)
        ]

  unlocked :
      (node : KnowledgeNode) (t : TreeState) (lock : Result Locked (Unit {0}))
      → unless_locked node lock ≡ some (ok tt, t)
      → (lock ≡ ok tt) × Removed t
  unlocked node t (err e) h = absurd (cc)
  unlocked node t (ok tt) h = (refl, gone_after_lock node t h)

  abbrev Succeeded : Option (List String) → TreeState → Type 0
  Succeeded walked t =
      (ids : List String) × (walked ≡ some ids)
      × (assert_no_active_session_in_nodes ids s.sessions ≡ ok tt)
      × Removed t

  walked_success :
      (node : KnowledgeNode) (t : TreeState) (walked : Option (List String))
      → elim walked as (λ _. Outcome) [ none ↦ none | some ids ↦ go_on node ids ] ≡ some (ok tt, t)
      → Succeeded walked t
  walked_success node t none h = absurd (cc)
  walked_success node t (some ids) h =
      let (free, gone) = unlocked node t (assert_no_active_session_in_nodes ids s.sessions) h in
      (ids, refl, free, gone)

  found_success :
      (t : TreeState) (found : Result TreeError KnowledgeNode)
      → elim found as (λ _. Outcome) [
        | err e ↦ some (err e, s)
        | ok node ↦ elim (collect_subtree_node_ids fuel id tenant s.nodes) as (λ _. Outcome) [
          | none ↦ none
          | some ids ↦ go_on node ids
        ]
      ]
        ≡ some (ok tt, t)
      → Succeeded (collect_subtree_node_ids fuel id tenant s.nodes) t
  found_success t (err e) h = absurd (cc)
  found_success t (ok node) h =
      walked_success node t (collect_subtree_node_ids fuel id tenant s.nodes) h

  -- A removal that succeeds found no document open at or below its node, and leaves exactly the
  -- rows of before that do not stand there, where no two rows share an id.
  pub remove_success :
      (t : TreeState)
      → HasPrimaryKey s.nodes
      → remove env context fuel id tenant s ≡ some (ok tt, t)
      → ((x : String) → Below tenant s.nodes id x → has_active_session x s.sessions ≡ false)
        × ((y : KnowledgeNode) → In y t.nodes ↔ (In y s.nodes × (Below tenant s.nodes id y.id → ⊥)))
  unfolding remove
  remove_success t key h =
      let (ids, walked, free, (u, gone, same)) = found_success t (find_node env id tenant s) h in
      (
        λ x b.
            none_active_of_ok x ids s.sessions
              ((collect_subtree_node_ids_iff tenant s.nodes fuel id ids x walked).1 b) free,
        λ y.
            rw (sym same)
              (remove_node_iff env context.skip_open_viking tenant fuel id s u key gone y),
      )
