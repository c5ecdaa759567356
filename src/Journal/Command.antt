-- ===== src/Journal/Command.antt =====
-- crates/pact-journal/src/raft/types.rs: the commands that go through Raft, and their responses.
use pact.Base.{ℕ, String, Option}
use pact.Types.{
  NodeId, VClusterId, EntrySeq, Identity, ConfigState, ConfigEntry, EnrollmentState, NodeEnrollment,
  BootOverlay, AdminOperation, VClusterPolicy, PendingApproval, ApprovalStatus,
}

pub data JournalCommand : Type 0 where
  append_entry : ConfigEntry → JournalCommand
  update_node_state : NodeId → ConfigState → JournalCommand
  set_policy : VClusterId → VClusterPolicy → JournalCommand
  set_overlay : VClusterId → BootOverlay → JournalCommand
  record_operation : AdminOperation → JournalCommand
  assign_node : NodeId → VClusterId → JournalCommand
  create_approval : PendingApproval → JournalCommand
  -- the approval's id, the approver and the decision
  decide_approval : String → Identity → ApprovalStatus → JournalCommand
  register_node : NodeEnrollment → JournalCommand
  -- the node, its certificate's serial and expiry
  activate_node : NodeId → String → String → JournalCommand
  deactivate_node : NodeId → JournalCommand
  revoke_node : NodeId → JournalCommand
  assign_node_to_vcluster : NodeId → VClusterId → JournalCommand
  unassign_node : NodeId → JournalCommand
  -- the node, where it comes from and where it goes
  move_node_vcluster : NodeId → VClusterId → VClusterId → JournalCommand
  update_node_last_seen : NodeId → String → JournalCommand
  update_node_cert : NodeId → String → String → JournalCommand

-- The `reason` of a validation error: one constructor for each message, with the values that
-- `format!` puts into it.
pub data Reason : Type 0 where
  author_principal_required author_role_required parent_must_precede_entry : Reason
  ttl_too_short ttl_too_long : Reason
  overlay_data_too_large : ℕ → Reason
  overlay_checksum_mismatch : String → String → Reason
  approval_already : String → ApprovalStatus → Reason
  self_approval : Reason
  approval_not_found : String → Reason
  node_already_enrolled hardware_identity_conflict node_not_enrolled : NodeId → Reason
  node_revoked already_active : NodeId → Reason

pub data JournalResponse : Type 0 where
  ok : JournalResponse
  entry_appended : EntrySeq → JournalResponse
  validation_error : Reason → JournalResponse
  enrollment_result : NodeId → EnrollmentState → Option VClusterId → JournalResponse
