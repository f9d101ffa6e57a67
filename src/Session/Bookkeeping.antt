-- ===== src/Session/Bookkeeping.antt =====
-- The two indexes of the registry agree, as long as callers name each node with its own knowledge
-- base.
use openviking_admin.Prelude.{
  str_eq_refl, set-ne-nil, Option-cases, inl, inr, ◌≢◌, ◌≢◌, String, Option, none, some, Bool, true,
  false, not, ◌&&◌, List, [], ◌∷◌, Map, get, set, delete, or_else, get-set, get-delete, str_eq,
  eq_iff, ◌≡◌, refl, arith,
}
use openviking_admin.Session.{
  DocumentSessionMode, DocumentSessionInfo, Sessions, StringSet, DocumentSessionRegistry,
  empty_registry, is_inhabited, register, unregister, remove_kb_node, has_active_session,
}
use openviking_admin.Session.Connections.{get_of_empty}

abbrev pub is_some {ℓ} : {A : Type ℓ} → Option A → Bool
is_some none = false
is_some (some a) = true

-- The node stands under the knowledge base in the second index.
abbrev pub is_indexed : String → String → DocumentSessionRegistry → Bool
is_indexed kb node r = is_some (get node (or_else (get kb r.kb_nodes) []))

-- What editors do: open a node, or close it.
pub data SessionEvent : Type 0 where
  opens : (node conn : String) (mode : DocumentSessionMode) → SessionEvent
  closes : (node conn : String) → SessionEvent

module _ (owner : String → String) where
  pub record IsConsistent (r : DocumentSessionRegistry) : Type 0 where
    pub indexed :
        (kb node : String)
        → is_indexed kb node r ≡ (is_some (get node r.node_sessions) && str_eq (owner node) kb)
    pub sessions_inhabited : (node : String) → get node r.node_sessions ≢ some []
    pub nodes_inhabited : (kb : String) → get kb r.kb_nodes ≢ some []

  pub empty-IsConsistent : IsConsistent empty_registry
  unfolding get
  empty-IsConsistent = record {
    indexed = λ kb node. refl;
    sessions_inhabited = λ node h. cc;
    nodes_inhabited = λ kb h. cc;
  }

  pub register-IsConsistent :
      (node conn : String) (mode : DocumentSessionMode) (r : DocumentSessionRegistry)
      → IsConsistent r
      → IsConsistent (register (owner node) node conn mode r)
  unfolding register
  register-IsConsistent node conn mode r c =
      let info : DocumentSessionInfo = record { kb_id = owner node; mode = mode } in
      let sessions : Sessions = or_else (get node r.node_sessions) [] in
      let nodes : StringSet = or_else (get (owner node) r.kb_nodes) [] in
      record {
        indexed = λ kb n. ground (
          arith,
          c.indexed kb n,
          eq_iff node n,
          eq_iff (owner node) kb,
          get-set node n (set conn info sessions) r.node_sessions,
          get-set (owner node) kb (set node tt nodes) r.kb_nodes,
          get-set node n tt nodes,
        );
        sessions_inhabited = λ n h. ground (
          arith,
          c.sessions_inhabited n,
          set-ne-nil conn info sessions,
          get-set node n (set conn info sessions) r.node_sessions,
        );
        nodes_inhabited = λ kb h. ground (
          arith,
          c.nodes_inhabited kb,
          set-ne-nil node tt nodes,
          get-set (owner node) kb (set node tt nodes) r.kb_nodes,
        );
      }

  -- `removeKbNode` takes one node from one knowledge base.
  module _ (kb node : String) (m : Map StringSet) where
    is_indexed-remove_kb_node :
        (k n : String)
        → is_some (get n (or_else (get k (remove_kb_node kb node m)) []))
          ≡ (not (str_eq kb k && str_eq node n) && is_some (get n (or_else (get k m) [])))
    is_indexed-remove_kb_node k n = elim (Option-cases (get kb m)) [
      | inl missing ↦
          unfold remove_kb_node in
          ground (arith, missing, eq_iff kb k, get_of_empty {V = Unit {0}} n [] refl)
      | inr (nodes, found) ↦
          unfold remove_kb_node in
          ground (
            arith,
            found,
            eq_iff kb k,
            get-delete node n nodes,
            get_of_empty n (delete node nodes),
            get_of_empty {V = Unit {0}} n [] refl,
            get-set kb k (delete node nodes) m,
            get-delete kb k m,
          )
    ]

    remove_kb_node_inhabited :
        (k : String) → get k m ≢ some [] → get k (remove_kb_node kb node m) ≢ some []
    remove_kb_node_inhabited k c h = elim (Option-cases (get kb m)) [
      | inl missing ↦ unfold remove_kb_node in ground (arith, missing)
      | inr (nodes, found) ↦
          unfold remove_kb_node in
          ground (arith, found, get-set kb k (delete node nodes) m, get-delete kb k m)
    ]

  unregister_missing :
      (kb node conn : String) (r : DocumentSessionRegistry)
      → get node r.node_sessions ≡ none
      → unregister kb node conn r ≡ r
  unfolding unregister
  unregister_missing kb node conn r h = ground arith

  pub unregister-IsConsistent :
      (node conn : String) (r : DocumentSessionRegistry)
      → IsConsistent r
      → IsConsistent (unregister (owner node) node conn r)
  unregister-IsConsistent node conn r c = elim (Option-cases (get node r.node_sessions)) [
    | inl missing ↦ rw (unregister_missing (owner node) node conn r missing) c
    | inr (sessions, found) ↦ record {
      indexed = λ kb n.
          unfold unregister in
          ground (
            arith,
            found,
            c.indexed kb n,
            eq_iff node n,
            eq_iff (owner node) kb,
            get-set node n (delete conn sessions) r.node_sessions,
            get-delete node n r.node_sessions,
            is_indexed-remove_kb_node (owner node) node r.kb_nodes kb n,
          );
      sessions_inhabited = λ n h.
          unfold unregister in
          ground (
            arith,
            found,
            c.sessions_inhabited n,
            get-set node n (delete conn sessions) r.node_sessions,
            get-delete node n r.node_sessions,
          );
      nodes_inhabited = λ kb h.
          unfold unregister in
          ground (
            arith,
            found,
            c.nodes_inhabited kb,
            remove_kb_node_inhabited (owner node) node r.kb_nodes kb,
          );
    }
  ]

  inhabited_of_some :
      {V : Type 0} (n : String) (m : Map V) → is_some (get n m) ≡ true → is_inhabited m ≡ true
  unfolding get
  inhabited_of_some n [] h = cc
  inhabited_of_some n (_ ∷ _) h = refl

  first_key :
      {V : Type 0} (m : Map V) → is_inhabited m ≡ true → (n : String) × (is_some (get n m) ≡ true)
  unfolding get
  first_key [] h = absurd (cc)
  first_key ((n, v) ∷ m) h = (n, rw (str_eq_refl n))

  active_of_some :
      (n : String) (r : DocumentSessionRegistry)
      → get n r.node_sessions ≢ some []
      → has_active_session n r ≡ is_some (get n r.node_sessions)
  unfolding has_active_session
  active_of_some n r h = ground arith

  abbrev pub run : List SessionEvent → DocumentSessionRegistry → DocumentSessionRegistry
  run [] r = r
  run (opens node conn mode ∷ es) r = run es (register (owner node) node conn mode r)
  run (closes node conn ∷ es) r = run es (unregister (owner node) node conn r)

  -- Whatever the editors open and close, the two indexes agree.
  pub run-IsConsistent :
      (es : List SessionEvent) (r : DocumentSessionRegistry)
      → IsConsistent r
      → IsConsistent (run es r)
  run-IsConsistent [] r c = c
  run-IsConsistent (opens node conn mode ∷ es) r c =
      run-IsConsistent es _ (register-IsConsistent node conn mode r c)
  run-IsConsistent (closes node conn ∷ es) r c =
      run-IsConsistent es _ (unregister-IsConsistent node conn r c)
