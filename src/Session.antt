-- ===== src/Session.antt =====
-- apps/server/src/common/document-session-registry.ts: which connections have a document open, and
-- the locks that the knowledge tree and the import worker take from it. A `Set` of node ids is a
-- map to nothing. The two maps of sessions are mutated in place: the record is their new content.
pub mod Connections
pub mod Bookkeeping
mod Examples
use openviking_admin.Prelude.{
  String, Option, none, some, Bool, true, false, not, ◌||◌, List, [], ◌∷◌, Map, get, set, delete,
  or_else, Result, ok, err, if◌then◌else◌,
}

pub data DocumentSessionMode : Type 0 where
  readonly write : DocumentSessionMode

pub record DocumentSessionInfo : Type 0 where
  pub kb_id : String
  pub mode : DocumentSessionMode

abbrev pub Sessions : Type 0
Sessions = Map DocumentSessionInfo

abbrev pub StringSet : Type 0
StringSet = Map (Unit {0})

pub record DocumentSessionRegistry : Type 0 where
  pub node_sessions : Map Sessions
  pub kb_nodes : Map StringSet

abbrev pub empty_registry : DocumentSessionRegistry
empty_registry = record { node_sessions = []; kb_nodes = [] }

-- `size > 0`
abbrev pub is_inhabited {ℓ} : {V : Type ℓ} → Map V → Bool
is_inhabited [] = false
is_inhabited (_ ∷ _) = true

unfoldable pub register :
    String
    → String
    → String
    → DocumentSessionMode
    → DocumentSessionRegistry
    → DocumentSessionRegistry
register kb_id node_id connection_id mode r =
    let sessions = or_else (get node_id r.node_sessions) [] in
    let nodes = or_else (get kb_id r.kb_nodes) [] in
    record {
      node_sessions =
          set node_id (set connection_id (record { kb_id = kb_id; mode = mode }) sessions)
            r.node_sessions;
      kb_nodes = set kb_id (set node_id tt nodes) r.kb_nodes;
    }

unfoldable pub remove_kb_node : String → String → Map StringSet → Map StringSet
remove_kb_node kb_id node_id kb_nodes = elim (get kb_id kb_nodes) [
  | none ↦ kb_nodes
  | some nodes ↦
      let rest = delete node_id nodes in
      if is_inhabited rest then set kb_id rest kb_nodes else delete kb_id kb_nodes
]

unfoldable pub unregister :
    String → String → String → DocumentSessionRegistry → DocumentSessionRegistry
unfolding remove_kb_node
unregister kb_id node_id connection_id r = elim (get node_id r.node_sessions) [
  | none ↦ r
  | some sessions ↦
      let rest = delete connection_id sessions in
      if is_inhabited rest
      then record r { node_sessions = set node_id rest r.node_sessions }
      else record {
        node_sessions = delete node_id r.node_sessions;
        kb_nodes = remove_kb_node kb_id node_id r.kb_nodes;
      }
]

unfoldable pub has_active_session : String → DocumentSessionRegistry → Bool
has_active_session node_id r = is_inhabited (or_else (get node_id r.node_sessions) [])

abbrev pub is_write : DocumentSessionMode → Bool
is_write write = true
is_write readonly = false

unfoldable pub some_write : Sessions → Bool
some_write [] = false
some_write ((connection, session) ∷ sessions) = is_write session.mode || some_write sessions

unfoldable pub has_active_write_session : String → DocumentSessionRegistry → Bool
unfolding some_write
has_active_write_session node_id r = elim (get node_id r.node_sessions) [
  | none ↦ false
  | some sessions ↦ some_write sessions
]

unfoldable pub has_active_session_in_kb : String → DocumentSessionRegistry → Bool
has_active_session_in_kb kb_id r = is_inhabited (or_else (get kb_id r.kb_nodes) [])

-- HTTP 423, with the message of the lock.
pub data Locked : Type 0 where
  write_locked tree_locked : Locked

unfoldable pub assert_no_active_write_session :
    String → DocumentSessionRegistry → Result Locked (Unit {0})
unfolding has_active_write_session
assert_no_active_write_session node_id r =
    if not (has_active_write_session node_id r) then ok tt else err write_locked

unfoldable pub some_active : List String → DocumentSessionRegistry → Bool
unfolding has_active_session
some_active [] r = false
some_active (node_id ∷ node_ids) r = has_active_session node_id r || some_active node_ids r

unfoldable pub assert_no_active_session_in_nodes :
    List String → DocumentSessionRegistry → Result Locked (Unit {0})
unfolding some_active
assert_no_active_session_in_nodes node_ids r =
    if not (some_active node_ids r) then ok tt else err tree_locked
