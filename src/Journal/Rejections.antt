-- ===== src/Journal/Rejections.antt =====
-- crates/pact-journal/src/raft/state.rs: what a refused command leaves behind.
use pact.Base.{◌≡◌, arith}
use pact.Types.{DateTime}
use pact.Journal.Command.{JournalCommand, Reason, validation_error}
use pact.Journal.State.{JournalState, Library}
use pact.Journal.Handlers.{
  append_entry, set_overlay, record_operation, decide_approval, register_node, activate_node,
  deactivate_node, revoke_node, assign_node_to_vcluster, unassign_node, move_node_vcluster,
  update_node_last_seen, update_node_cert,
}
use pact.Journal.Apply.{apply}

-- A command that is answered by a validation error leaves the whole state as it was.
pub apply-refused :
    (lib : Library) (now : DateTime) (cmd : JournalCommand) (s : JournalState) (reason : Reason)
    → (apply lib now cmd s).1 ≡ validation_error reason
    → (apply lib now cmd s).0 ≡ s
unfolding apply append_entry set_overlay record_operation decide_approval register_node
    activate_node deactivate_node revoke_node assign_node_to_vcluster unassign_node
    move_node_vcluster update_node_last_seen update_node_cert
apply-refused lib now (JournalCommand.append_entry entry) s reason h = ground arith
apply-refused lib now _ s reason h = ground arith
