-- ===== src/Journal/Invariant.antt =====
-- crates/pact-journal/src/raft/state.rs: what holds of the journal's state after every command.
mod Enrolled
pub use Enrolled.{IsWellFormed, with_enrollment-rule, decide_approval-frame}
use Enrolled.{
  append_entry-frame, set_overlay-frame, register_node-frame, update-IsWellFormed,
  activate_node-IsWellFormed, deactivate_node-IsWellFormed, revoke_node-IsWellFormed,
  assign_node_to_vcluster-IsWellFormed, unassign_node-IsWellFormed, move_node_vcluster-IsWellFormed,
  update_node_last_seen-IsWellFormed, update_node_cert-IsWellFormed,
}
use pact.Base.{
  ℕ, suc, ◌+◌, ◌^◌, ◌≤◌, ◌<◌, ◌≡◌, refl, ◌⊎◌, inl, inr, Option-cases, none, some, List, [], ◌∷◌,
  length, arith, String_eq, ℕ_eq, String,
}
use pact.Base.Map.{Map, Each, Each-nil, Each-insert, lookup, insert}
use pact.Types.{
  DateTime, NodeId, VClusterId, EntrySeq, ConfigEntry, NodeEnrollment, BootOverlay, PendingApproval,
  Identity, ApprovalStatus,
}
use pact.Journal.Command.{JournalCommand, Reason, node_not_enrolled}
use pact.Journal.State.{hw_canonical_key, JournalState, Library, audit_log_max, empty_state}
use pact.Journal.Handlers.{
  Outcome, refuse, with_enrollment, put_enrollment, append_entry, set_overlay, record_operation,
  decide_approval, register_node, activated, activate, activate_node, deactivate_node, revoke_node,
  assign_node_to_vcluster, unassign_node, move_node_vcluster, update_node_last_seen, renewed,
  update_node_cert,
}
use pact.Journal.Apply.{apply, replay}
use pact.Journal.Entries.{
  IsJournal, append_entry-IsJournal, append_entry-keeps, append_entry-next_le, append_entry-cases,
}
use pact.Journal.Limits.{AreSound, set_overlay-AreSound, record_operation-audit_log}
use pact.Journal.Hardware.{
  IsRegistry-unique, IsRegistry, IsRegistry-update, register_node-IsRegistry,
}

-- Every command keeps the state well formed, while sequence numbers are left.
pub apply-IsWellFormed :
    (lib : Library) (now : DateTime) (cmd : JournalCommand) (s : JournalState)
    → IsWellFormed lib s
    → s.next_sequence + 1 < 2 ^ 64
    → IsWellFormed lib (apply lib now cmd s).0
unfolding apply record_operation
apply-IsWellFormed lib now (JournalCommand.append_entry e) s w room =
    rw (append_entry-frame e s) (record {
      journal = append_entry-IsJournal e s w.journal room;
      overlays = w.overlays;
      audit_log = w.audit_log;
      registry = w.registry;
    })
apply-IsWellFormed lib now (JournalCommand.set_overlay v o) s w room =
    rw (set_overlay-frame lib v o s) (record {
      journal = w.journal;
      overlays = set_overlay-AreSound lib v o s w.overlays;
      audit_log = w.audit_log;
      registry = w.registry;
    })
apply-IsWellFormed lib now (JournalCommand.record_operation op) s w room = record {
  journal = w.journal;
  overlays = w.overlays;
  audit_log = (record_operation-audit_log op s).0;
  registry = w.registry;
}
apply-IsWellFormed lib now (JournalCommand.decide_approval i a d) s w room =
    rw (decide_approval-frame i a d s) (record {
      journal = w.journal;
      overlays = w.overlays;
      audit_log = w.audit_log;
      registry = w.registry;
    })
apply-IsWellFormed lib now (JournalCommand.register_node e) s w room =
    rw (register_node-frame e s) (record {
      journal = w.journal;
      overlays = w.overlays;
      audit_log = w.audit_log;
      registry = register_node-IsRegistry e s w.registry;
    })
apply-IsWellFormed lib now (JournalCommand.activate_node n c x) s w room =
    activate_node-IsWellFormed lib s w now n c x
apply-IsWellFormed lib now (JournalCommand.deactivate_node n) s w room =
    deactivate_node-IsWellFormed lib s w n
apply-IsWellFormed lib now (JournalCommand.revoke_node n) s w room =
    revoke_node-IsWellFormed lib s w n
apply-IsWellFormed lib now (JournalCommand.assign_node_to_vcluster n v) s w room =
    assign_node_to_vcluster-IsWellFormed lib s w n v
apply-IsWellFormed lib now (JournalCommand.unassign_node n) s w room =
    unassign_node-IsWellFormed lib s w n
apply-IsWellFormed lib now (JournalCommand.move_node_vcluster n from to) s w room =
    move_node_vcluster-IsWellFormed lib s w n from to
apply-IsWellFormed lib now (JournalCommand.update_node_last_seen n x) s w room =
    update_node_last_seen-IsWellFormed lib s w n x
apply-IsWellFormed lib now (JournalCommand.update_node_cert n c x) s w room =
    update_node_cert-IsWellFormed lib s w n now c x
apply-IsWellFormed lib now _ s w room = record {
  journal = w.journal;
  overlays = w.overlays;
  audit_log = w.audit_log;
  registry = w.registry;
}

-- A command other than an append leaves the entries and the counter alone.
apply-journal :
    (lib : Library) (now : DateTime) (cmd : JournalCommand) (s : JournalState)
    → ((e : ConfigEntry) × (cmd ≡ JournalCommand.append_entry e))
      ⊎ (((apply lib now cmd s).0.entries ≡ s.entries)
          × ((apply lib now cmd s).0.next_sequence ≡ s.next_sequence))
unfolding apply set_overlay record_operation decide_approval register_node activate_node
    deactivate_node revoke_node assign_node_to_vcluster unassign_node move_node_vcluster
    update_node_last_seen update_node_cert
apply-journal lib now (JournalCommand.append_entry e) s = inl (e, refl)
apply-journal lib now _ s = inr (ground arith, ground arith)

apply-next_le :
    (lib : Library) (now : DateTime) (cmd : JournalCommand) (s : JournalState)
    → (apply lib now cmd s).0.next_sequence ≤ s.next_sequence + 1
apply-next_le lib now cmd s = elim (apply-journal lib now cmd s) [
  | inl (e, p) ↦ rw p (unfold apply in append_entry-next_le e s)
  | inr (p, q) ↦ rw q (omega arith)
]

-- The journal is append-only: no command changes or removes an entry.
pub apply-keeps_entries :
    (lib : Library) (now : DateTime) (cmd : JournalCommand) (s : JournalState)
    → IsWellFormed lib s
    → (n : EntrySeq) (v : ConfigEntry) → lookup n s.entries ≡ some v
    → lookup n (apply lib now cmd s).0.entries ≡ some v
apply-keeps_entries lib now cmd s w n v found = elim (apply-journal lib now cmd s) [
  | inl (e, p) ↦ rw p (unfold apply in append_entry-keeps e s w.journal n v found)
  | inr (p, q) ↦ rw p found
]

-- While sequence numbers are left for the log, a well-formed state stays so along it, and no entry is
-- changed or removed. Well formed means: the positions below the counter are those taken, each by an
-- entry that was acceptable there and carries its position; each overlay fits and has the checksum of
-- its bytes; the audit log is within its cap; and each node's record stands under its own id, with its
-- hardware indexed to it and to no other.
pub replay-IsWellFormed :
    (lib : Library) (log : List (DateTime × JournalCommand)) (s : JournalState)
    → IsWellFormed lib s
    → s.next_sequence + length log < 2 ^ 64
    → IsWellFormed lib (replay lib log s)
      × Each (λ n v. lookup n (replay lib log s).entries ≡ some v) s.entries
unfolding replay
replay-IsWellFormed lib [] s w room = (w, λ n v found. found)
replay-IsWellFormed lib ((now, cmd) ∷ log) s w room =
    let t = (apply lib now cmd s).0 in
    let (well, kept) =
      replay-IsWellFormed lib log t (apply-IsWellFormed lib now cmd s w (omega arith))
        (omega (arith, apply-next_le lib now cmd s)) in
    (well, λ n v found. kept n v (apply-keeps_entries lib now cmd s w n v found))

pub empty-IsWellFormed : (lib : Library) → IsWellFormed lib empty_state
unfolding lookup
empty-IsWellFormed lib = record {
  journal = record { kept = Each-nil _; below = Each-nil _; dense = λ n h. elim h [ ] };
  overlays = Each-nil _;
  audit_log = omega arith;
  registry = record { records = Each-nil _; index = Each-nil _ };
}

-- Whatever log of fewer than 2 ^ 64 commands an empty journal replays: two enrolled nodes whose
-- hardware has one key are one node.
pub replay-one_node_per_hardware :
    (lib : Library) (log : List (DateTime × JournalCommand)) (n m : NodeId) (e v : NodeEnrollment)
    → length log < 2 ^ 64
    → lookup n (replay lib log empty_state).enrollments ≡ some e
    → lookup m (replay lib log empty_state).enrollments ≡ some v
    → hw_canonical_key e.hardware_identity ≡ hw_canonical_key v.hardware_identity
    → n ≡ m
replay-one_node_per_hardware lib log n m e v room =
    let (w, _) = replay-IsWellFormed lib log empty_state (empty-IsWellFormed lib) (omega arith) in
    IsRegistry-unique _ _ w.registry n m e v
