-- ===== src/Journal/Handlers.antt =====
-- crates/pact-journal/src/raft/state.rs: `apply`, one function for each command that checks
-- something. A handler returns the new state with its response.
use pact.Base.{
  ℕ, ◌+◌, ◌-◌, String, Bool, false, Option, none, some, List, [], ◌∷◌, ◌++◌, ◌==◌, String_eq, ltb,
  leb, length, drop, if◌then◌else◌, ◌&&◌, not,
}
use pact.Base.BTree
use pact.Base.Map.{lookup, insert, remove, contains_key}
use pact.Base.Text.{is_empty}
use pact.Types.{
  NodeId, VClusterId, EntrySeq, DateTime, Identity, ConfigEntry, NodeEnrollment, BootOverlay,
  AdminOperation, PendingApproval, ApprovalStatus, is_pending, EnrollmentState,
}
use pact.Journal.Command.{
  Reason, author_principal_required, author_role_required, parent_must_precede_entry, ttl_too_short,
  ttl_too_long, overlay_data_too_large, overlay_checksum_mismatch, approval_already, self_approval,
  approval_not_found, node_already_enrolled, hardware_identity_conflict, node_not_enrolled,
  node_revoked, already_active, JournalResponse, ok, entry_appended, validation_error,
  enrollment_result,
}
use pact.Journal.State.{
  JournalState, Library, ttl_min_seconds, ttl_max_seconds, overlay_max_bytes, audit_log_max, u64,
  hw_canonical_key,
}

abbrev pub Outcome : Type 0
Outcome = JournalState × JournalResponse

abbrev pub refuse : Reason → JournalState → Outcome
refuse reason s = (s, validation_error reason)

-- `parent >= self.next_sequence`, where there is a parent.
abbrev pub parent_too_late : Option EntrySeq → EntrySeq → Bool
parent_too_late none next = false
parent_too_late (some parent) next = leb next parent

abbrev pub ttl_below_min : Option ℕ → Bool
ttl_below_min none = false
ttl_below_min (some ttl) = ltb 0 ttl && ltb ttl ttl_min_seconds

abbrev pub ttl_above_max : Option ℕ → Bool
ttl_above_max none = false
ttl_above_max (some ttl) = ltb ttl_max_seconds ttl

unfoldable pub append_entry : ConfigEntry → JournalState → Outcome
append_entry entry s =
    if is_empty entry.author.principal
    then refuse author_principal_required s
    else if is_empty entry.author.role
    then refuse author_role_required s
    else if parent_too_late entry.parent s.next_sequence
    then refuse parent_must_precede_entry s
    else if ttl_below_min entry.ttl_seconds
    then refuse ttl_too_short s
    else if ttl_above_max entry.ttl_seconds
    then refuse ttl_too_long s
    else (
      record s {
        entries =
            BTree.insert s.next_sequence (record entry { sequence = s.next_sequence }) s.entries;
        next_sequence = u64 (s.next_sequence + 1);
      },
      entry_appended s.next_sequence,
    )

unfoldable pub set_overlay : Library → VClusterId → BootOverlay → JournalState → Outcome
set_overlay lib vcluster_id overlay s =
    if ltb overlay_max_bytes (length overlay.bytes)
    then refuse (overlay_data_too_large (length overlay.bytes)) s
    else if not (overlay.checksum == lib.compute_overlay_checksum overlay.bytes)
    then refuse
        (overlay_checksum_mismatch overlay.checksum (lib.compute_overlay_checksum overlay.bytes)) s
    else (record s { overlays = insert vcluster_id overlay s.overlays }, ok)

-- The oldest operations are dropped past the cap.
unfoldable pub capped : List AdminOperation → List AdminOperation
capped log = if ltb audit_log_max (length log) then drop (length log - audit_log_max) log else log

unfoldable pub record_operation : AdminOperation → JournalState → Outcome
record_operation op s = (record s { audit_log = capped (s.audit_log ++ op ∷ []) }, ok)

unfoldable pub decide :
    String → Identity → ApprovalStatus → JournalState → PendingApproval → Outcome
decide approval_id approver decision s approval =
    if not (is_pending approval.status)
    then refuse (approval_already approval_id approval.status) s
    else if approval.requester.principal == approver.principal
    then refuse self_approval s
    else (
      record s {
        pending_approvals =
            insert approval_id (record approval { status = decision; approver = some approver })
              s.pending_approvals;
      },
      ok,
    )

unfoldable pub decide_approval : String → Identity → ApprovalStatus → JournalState → Outcome
unfolding decide
decide_approval approval_id approver decision s = elim (lookup approval_id s.pending_approvals) [
  | none ↦ refuse (approval_not_found approval_id) s
  | some approval ↦ decide approval_id approver decision s approval
]

unfoldable pub register_node : NodeEnrollment → JournalState → Outcome
register_node enrollment s =
    if contains_key enrollment.node_id s.enrollments
    then refuse (node_already_enrolled enrollment.node_id) s
    else elim (lookup (hw_canonical_key enrollment.hardware_identity) s.hw_index) [
      | some existing ↦ refuse (hardware_identity_conflict existing) s
      | none ↦ (
        record s {
          hw_index =
              insert (hw_canonical_key enrollment.hardware_identity) enrollment.node_id s.hw_index;
          enrollments = insert enrollment.node_id enrollment s.enrollments;
        },
        enrollment_result enrollment.node_id EnrollmentState.registered none,
      )
    ]

-- `match self.enrollments.get_mut(&node_id)`, with the refusal of an unknown node.
abbrev pub with_enrollment : NodeId → JournalState → (NodeEnrollment → Outcome) → Outcome
with_enrollment node_id s body = elim (lookup node_id s.enrollments) [
  | none ↦ refuse (node_not_enrolled node_id) s
  | some enrollment ↦ body enrollment
]

-- The record behind `get_mut` is written in its place.
abbrev pub put_enrollment : NodeId → NodeEnrollment → JournalState → JournalState
put_enrollment node_id enrollment s = record s {
  enrollments = insert node_id enrollment s.enrollments;
}

unfoldable pub activated : Library → DateTime → String → String → NodeEnrollment → NodeEnrollment
activated lib now cert_serial cert_expires_at e = record e {
  state = EnrollmentState.active;
  cert_serial = some cert_serial;
  cert_expires_at = lib.parse_from_rfc3339 cert_expires_at;
  last_seen = some now;
}

unfoldable pub activate :
    Library → DateTime → NodeId → String → String → JournalState → NodeEnrollment → Outcome
unfolding activated
activate lib now node_id cert_serial cert_expires_at s e = elim e.state [
  | EnrollmentState.revoked ↦ refuse (node_revoked node_id) s
  | EnrollmentState.active ↦ refuse (already_active node_id) s
  | _ ↦ (
    put_enrollment node_id (activated lib now cert_serial cert_expires_at e) s,
    enrollment_result node_id EnrollmentState.active e.vcluster_id,
  )
]

-- `now` is the `Utc::now()` of the replica that applies the command.
unfoldable pub activate_node :
    Library → DateTime → NodeId → String → String → JournalState → Outcome
unfolding activate
activate_node lib now node_id cert_serial cert_expires_at s =
    with_enrollment node_id s (activate lib now node_id cert_serial cert_expires_at s)

unfoldable pub deactivate_node : NodeId → JournalState → Outcome
deactivate_node node_id s =
    with_enrollment node_id s
      λ e. (put_enrollment node_id (record e { state = EnrollmentState.inactive }) s, ok)

unfoldable pub revoke_node : NodeId → JournalState → Outcome
revoke_node node_id s =
    with_enrollment node_id s
      λ e. (put_enrollment node_id (record e { state = EnrollmentState.revoked }) s, ok)

unfoldable pub assign_node_to_vcluster : NodeId → VClusterId → JournalState → Outcome
assign_node_to_vcluster node_id vcluster_id s = with_enrollment node_id s λ e. (
  record s {
    enrollments = insert node_id (record e { vcluster_id = some vcluster_id }) s.enrollments;
    node_assignments = insert node_id vcluster_id s.node_assignments;
  },
  ok,
)

unfoldable pub unassign_node : NodeId → JournalState → Outcome
unassign_node node_id s = with_enrollment node_id s λ e. (
  record s {
    enrollments = insert node_id (record e { vcluster_id = none }) s.enrollments;
    node_assignments = remove node_id s.node_assignments;
  },
  ok,
)

unfoldable pub move_node_vcluster : NodeId → VClusterId → VClusterId → JournalState → Outcome
move_node_vcluster node_id from_vcluster_id to_vcluster_id s = with_enrollment node_id s λ e. (
  record s {
    enrollments = insert node_id (record e { vcluster_id = some to_vcluster_id }) s.enrollments;
    node_assignments = insert node_id to_vcluster_id s.node_assignments;
  },
  ok,
)

unfoldable pub update_node_last_seen : Library → NodeId → String → JournalState → Outcome
update_node_last_seen lib node_id timestamp s =
    with_enrollment node_id s λ e.
      (put_enrollment node_id (record e { last_seen = lib.parse_from_rfc3339 timestamp }) s, ok)

unfoldable pub renewed : Library → DateTime → String → String → NodeEnrollment → NodeEnrollment
renewed lib now cert_serial cert_expires_at e = record e {
  cert_serial = some cert_serial;
  cert_expires_at = lib.parse_from_rfc3339 cert_expires_at;
  last_seen = some now;
}

unfoldable pub update_node_cert :
    Library → DateTime → NodeId → String → String → JournalState → Outcome
unfolding renewed
update_node_cert lib now node_id cert_serial cert_expires_at s =
    with_enrollment node_id s
      λ e. (put_enrollment node_id (renewed lib now cert_serial cert_expires_at e) s, ok)
