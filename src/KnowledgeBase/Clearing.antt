-- ===== src/KnowledgeBase/Clearing.antt =====
-- What a removal of a base leaves.
use mathlib.Core.Path.{subst}
use openviking_admin.Prelude.{
  ℕ, suc, String, ◌≡◌, refl, ◌≢◌, ◌↔◌, inl, inr, true, false, Option, none, some, List, [], ◌∷◌,
  arith, eq_iff, str_eq, if◌then◌else◌, Bool-cases, Result, ok, err, In,
}
use openviking_admin.Session.{has_active_session_in_kb}
use openviking_admin.Tree.Node.{KnowledgeNode}
use openviking_admin.Tree.Service as Tree
use openviking_admin.Tree.Service.{
  KnowledgeBaseRow, KnowledgeBaseStatus, active, building, archived, TreeState, TreeError,
  tenant_condition,
}
use openviking_admin.Tree.Service.Walks.{Below}
use openviking_admin.Tree.Service.Removal.{Outcome, delete_open_viking_resource}
use openviking_admin.Tree.Service.Removal.Runs.{delete_open_viking_resource-nodes}
use openviking_admin.Tree.Service.Removal.Cleared.{HasPrimaryKey}
use openviking_admin.KnowledgeBase.{
  Bool, with_ov_config, not_found, knowledge_base_locked, KnowledgeBaseOutcome, find_by_id,
  delete_base, is_in_base, find_by_kb, root_nodes, finished, remove_roots, remove_with, remove,
}
use openviking_admin.KnowledgeBase.Roots.{
  Below-trans, IsDeep, remove_roots_iff, find_by_kb-In, root_nodes-In, covered,
}

delete_base-id :
    (id : String) (bases : List KnowledgeBaseRow) (kb : KnowledgeBaseRow)
    → In kb (delete_base id bases)
    → kb.id ≢ id
unfolding delete_base
delete_base-id id [] kb m e = absurd m
delete_base-id id (row ∷ bases) kb m e = elim (Bool-cases (str_eq row.id id)) [
  | inl same ↦ delete_base-id id bases kb (rw same at m) e
  | inr other ↦ elim (rw other at m) as (λ _. ⊥) [
    | inl is ↦ ground (arith, is, e, other, eq_iff row.id id)
    | inr n ↦ delete_base-id id bases kb n e
  ]
]

find_by_id-id :
    (id : String) (tenant : Option String) (bases : List KnowledgeBaseRow) (kb : KnowledgeBaseRow)
    → find_by_id id tenant bases ≡ some kb
    → kb.id ≡ id
unfolding find_by_id
find_by_id-id id tenant [] kb h = absurd (cc)
find_by_id-id id tenant (row ∷ bases) kb h =
    ground (arith, eq_iff row.id id, find_by_id-id id tenant bases kb)

module _ (env : Tree.Environment) (fuel : ℕ) (tenant : Option String) (t : TreeState) where
  abbrev IsCleared : String → List KnowledgeNode → List KnowledgeNode → Type 0
  IsCleared id roots before =
      ((y : KnowledgeNode)
        → In y t.nodes
          ↔ (In y before × ((r : KnowledgeNode) → In r roots → Below tenant before r.id y.id → ⊥)))
      × ((kb : KnowledgeBaseRow) → In kb t.bases → kb.id ≢ id)

  finished-IsCleared :
      (id : String) (roots : List KnowledgeNode) (s : TreeState) (gone : Outcome)
      → HasPrimaryKey s.nodes
      → remove_roots env fuel tenant roots s ≡ gone
      → finished id gone ≡ some (ok tt, t)
      → IsCleared id roots s.nodes
  finished-IsCleared id roots s none key run h = absurd (cc)
  finished-IsCleared id roots s (some (err e, u)) key run h = absurd (cc)
  finished-IsCleared id roots s (some (ok tt, u)) key run h =
      let same : record u { bases = delete_base id u.bases } ≡ t = cc in
      subst
        (λ (x : TreeState).
          ((y : KnowledgeNode)
            → In y x.nodes ↔ (
                In y s.nodes
                × ((r : KnowledgeNode) → In r roots → Below tenant s.nodes r.id y.id → ⊥)))
          × ((kb : KnowledgeBaseRow) → In kb x.bases → kb.id ≢ id))
        same (remove_roots_iff env fuel tenant roots s u key run, delete_base-id id u.bases)

  remove_with-IsCleared :
      (id : String) (roots before : List KnowledgeNode)
      (engine : Result TreeError (Unit {0}) × TreeState)
      → HasPrimaryKey before
      → engine.1.nodes ≡ before
      → remove_with env fuel id tenant roots engine ≡ some (ok tt, t)
      → IsCleared id roots before
  remove_with-IsCleared id roots before (err e, s) key same h = absurd (cc)
  remove_with-IsCleared id roots before (ok tt, s) key same h =
      subst (IsCleared id roots) same (finished-IsCleared id roots s _ (rw same key) refl h)

  resolved :
      (known : Bool) (s : TreeState) (next : KnowledgeBaseOutcome)
      → with_ov_config known s next ≡ some (ok tt, t)
      → next ≡ some (ok tt, t)
  resolved false s next h = absurd (cc)
  resolved true s next h = h

  found-IsCleared :
      (id : String) (s : TreeState) (found : Option KnowledgeBaseRow)
      → HasPrimaryKey s.nodes
      → ((kb : KnowledgeBaseRow) → found ≡ some kb → kb.id ≡ id)
      → elim found as (λ _. KnowledgeBaseOutcome) [
        | none ↦ some (err not_found, s)
        | some kb ↦
            if has_active_session_in_kb kb.id s.sessions
            then some (err knowledge_base_locked, s)
            else with_ov_config env.resolves_ov_config s (
                remove_with env fuel kb.id tenant
                  (root_nodes (find_by_kb kb.id tenant s.nodes) (find_by_kb kb.id tenant s.nodes))
                  (delete_open_viking_resource env kb.viking_uri true s))
      ]
        ≡ some (ok tt, t)
      → (has_active_session_in_kb id s.sessions ≡ false)
        × IsCleared id
            (root_nodes (find_by_kb id tenant s.nodes) (find_by_kb id tenant s.nodes))
            s.nodes
  found-IsCleared id s none key own h = absurd (cc)
  found-IsCleared id s (some kb) key own h =
      subst
        (λ x.
          (has_active_session_in_kb x s.sessions ≡ false)
          × IsCleared x (root_nodes (find_by_kb x tenant s.nodes) (find_by_kb x tenant s.nodes))
              s.nodes)
        (own kb refl)
        (elim (Bool-cases (has_active_session_in_kb kb.id s.sessions)) [
          | inl busy ↦ absurd (ground (arith, busy, h))
          | inr idle ↦ (
            idle,
            remove_with-IsCleared kb.id _ s.nodes
                (delete_open_viking_resource env kb.viking_uri true s) key
                (delete_open_viking_resource-nodes env kb.viking_uri true s)
                (resolved env.resolves_ov_config s _ (rw idle at h)),
          )
        ])

  -- A removal of a base that succeeds found no document of the base open. It takes the row of the
  -- base, and exactly those nodes that stand at or below a node of the base; where no two nodes
  -- share an id, where each stands deeper than its parent, and for a tenant that is not empty.
  pub remove_base_success :
      (id : String) (s : TreeState) (depth : String → ℕ)
      → HasPrimaryKey s.nodes
      → tenant_condition tenant ≡ tenant
      → IsDeep tenant s.nodes depth
      → remove env fuel id tenant s ≡ some (ok tt, t)
      → (has_active_session_in_kb id s.sessions ≡ false)
        × ((kb : KnowledgeBaseRow) → In kb t.bases → kb.id ≢ id)
        × ((y : KnowledgeNode)
            → In y t.nodes ↔ (
                In y s.nodes
                × ((k : KnowledgeNode)
                    → In k s.nodes
                    → is_in_base id tenant k ≡ true
                    → Below tenant s.nodes k.id y.id
                    → ⊥)))
  unfolding remove
  remove_base_success id s depth key plain deep h =
      let (idle, cleared) =
        found-IsCleared id s (find_by_id id tenant s.bases) key (find_by_id-id id tenant s.bases)
          h in
      let (left, rows) = cleared in
      let nodes = find_by_kb id tenant s.nodes in
      (
        idle,
        rows,
        λ y. (
          λ m.
              let (ms, apart) = (left y).0 m in
              (
                ms,
                λ k km base b.
                    let (r, rm, above) =
                      covered id tenant plain s.nodes depth (suc (depth k.id)) k deep (omega arith)
                        km base in
                    apart r rm (Below-trans tenant s.nodes r.id k.id y.id above b),
              ),
          λ (ms, apart). (left y).1 (
            ms,
            λ r rm b.
                let (root, rn) = (root_nodes-In nodes nodes r).0 rm in
                let (base, rs) = (find_by_kb-In id tenant s.nodes r).0 rn in apart r rs base b,
          ),
        ),
      )
