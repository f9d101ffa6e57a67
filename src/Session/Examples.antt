-- ===== src/Session/Examples.antt =====
-- Tests of the session registry, and its theorems at concrete sessions.
use openviking_admin.Prelude.{String, [], ◌∷◌, err, get, set, delete, ◌≡◌, refl}
use openviking_admin.Session.{
  DocumentSessionRegistry, empty_registry, register, unregister, write, readonly, remove_kb_node,
  has_active_session, some_active, assert_no_active_session_in_nodes, tree_locked,
}
use openviking_admin.Session.Bookkeeping.{
  IsConsistent, opens, closes, run-IsConsistent, empty-IsConsistent, register-IsConsistent,
}

abbrev owner : String → String
owner _ = "kb"

abbrev opened : DocumentSessionRegistry
opened = register "kb" "n1" "c2" readonly (register "kb" "n1" "c1" write empty_registry)

abbrev closed : DocumentSessionRegistry
closed = unregister "kb" "n1" "c2" (unregister "kb" "n1" "c1" opened)

opened_then_closed : closed ≡ empty_registry
unfolding register unregister remove_kb_node get set delete
opened_then_closed = refl

locked_tree : assert_no_active_session_in_nodes ("n2" ∷ "n1" ∷ []) opened ≡ err tree_locked
unfolding register assert_no_active_session_in_nodes some_active has_active_session get set
locked_tree = refl

opened-IsConsistent : IsConsistent owner opened
opened-IsConsistent =
    register-IsConsistent owner "n1" "c2" readonly _
      (register-IsConsistent owner "n1" "c1" write _ (empty-IsConsistent owner))

run-IsConsistent_example :
    IsConsistent owner (unregister "kb" "n1" "c1" (register "kb" "n2" "c3" readonly opened))
run-IsConsistent_example =
    run-IsConsistent owner (opens "n2" "c3" readonly ∷ closes "n1" "c1" ∷ []) opened
      opened-IsConsistent
