-- ===== src/Journal/Apply.antt =====
-- crates/pact-journal/src/raft/state.rs: `apply` on every command, and the replay of a log.
use pact.Base.{List, [], ◌∷◌, String_eq}
use pact.Base.Map.{insert}
use pact.Types.{DateTime}
use pact.Journal.Command.{JournalCommand, ok}
use pact.Journal.State.{JournalState, Library}
use pact.Journal.Handlers
use pact.Journal.Handlers.{Outcome}

-- `now` is what `Utc::now()` returns while the command is applied.
unfoldable pub apply : Library → DateTime → JournalCommand → JournalState → Outcome
apply lib now (JournalCommand.append_entry entry) s = Handlers.append_entry entry s
apply lib now (JournalCommand.update_node_state node_id state) s =
    (record s { node_states = insert node_id state s.node_states }, ok)
apply lib now (JournalCommand.set_policy vcluster_id policy) s =
    (record s { policies = insert vcluster_id policy s.policies }, ok)
apply lib now (JournalCommand.set_overlay vcluster_id overlay) s =
    Handlers.set_overlay lib vcluster_id overlay s
apply lib now (JournalCommand.record_operation op) s = Handlers.record_operation op s
apply lib now (JournalCommand.assign_node node_id vcluster_id) s =
    (record s { node_assignments = insert node_id vcluster_id s.node_assignments }, ok)
apply lib now (JournalCommand.create_approval approval) s =
    (record s { pending_approvals = insert approval.approval_id approval s.pending_approvals }, ok)
apply lib now (JournalCommand.decide_approval approval_id approver decision) s =
    Handlers.decide_approval approval_id approver decision s
apply lib now (JournalCommand.register_node enrollment) s = Handlers.register_node enrollment s
apply lib now (JournalCommand.activate_node node_id serial expires) s =
    Handlers.activate_node lib now node_id serial expires s
apply lib now (JournalCommand.deactivate_node node_id) s = Handlers.deactivate_node node_id s
apply lib now (JournalCommand.revoke_node node_id) s = Handlers.revoke_node node_id s
apply lib now (JournalCommand.assign_node_to_vcluster node_id vcluster_id) s =
    Handlers.assign_node_to_vcluster node_id vcluster_id s
apply lib now (JournalCommand.unassign_node node_id) s = Handlers.unassign_node node_id s
apply lib now (JournalCommand.move_node_vcluster node_id from to) s =
    Handlers.move_node_vcluster node_id from to s
apply lib now (JournalCommand.update_node_last_seen node_id timestamp) s =
    Handlers.update_node_last_seen lib node_id timestamp s
apply lib now (JournalCommand.update_node_cert node_id serial expires) s =
    Handlers.update_node_cert lib now node_id serial expires s

-- A committed log, each command with the clock of the moment at which this replica applies it.
unfoldable pub replay : Library → List (DateTime × JournalCommand) → JournalState → JournalState
replay lib [] s = s
replay lib ((now, cmd) ∷ log) s = replay lib log (apply lib now cmd s).0
