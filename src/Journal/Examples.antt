-- ===== src/Journal/Examples.antt =====
-- crates/pact-journal/src/raft/state.rs: the theorems at concrete commands and states.
use pact.Base.{
  ◌≡◌, ◌≢◌, ◌↔◌, ◌≤◌, ◌-◌, ◌++◌, refl, inr, Option, none, some, List, [], ◌∷◌, arith, String,
  String_eq, ℕ_eq, In, here, length,
}
use pact.Base.Map.{Each, Each-nil, lookup, insert, contains_key}
use pact.Types.{
  DateTime, Identity, PrincipalType, ConfigEntry, EntryType, Scope, EnrollmentState, NodeEnrollment,
  PendingApproval, pending, approved, DeltaItem, DeltaAction, AdminOperation, AdminOperationType,
}
use pact.Journal.Command.{JournalCommand, entry_appended, node_not_enrolled, enrollment_result}
use pact.Journal.State.{JournalState, Library, empty_state, audit_log_max}
use pact.Journal.Handlers.{
  append_entry, decide_approval, record_operation, register_node, activate_node, revoke_node,
}
use pact.Journal.Apply.{apply, replay}
use pact.Journal.Entries.{append_entry-accepts_iff, IsAcceptable, IsAppended}
use pact.Journal.Invariant.{
  IsWellFormed, empty-IsWellFormed, replay-IsWellFormed, replay-one_node_per_hardware,
}
use pact.Journal.Lifecycle.{Step, apply-Step, revoked_stays, revoked_returns, status}
use pact.Journal.Approvals.{IsTwoPerson, replay-IsTwoPerson}
use pact.Journal.Replicas.{forget, responses, replicas_agree, activation_depends_on_clock}
use pact.Journal.Rejections.{apply-refused}
use pact.Journal.Limits.{record_operation-audit_log}
use pact.Journal.Conflicts.{IsConflict, ConflictEntry, detect_conflicts, detect_conflicts_iff}
use pact.Journal.Homogeneity.{
  HomogeneityWarning, HasDelta, check_homogeneity, delta_keys, check_homogeneity_sound,
  check_homogeneity_complete,
}

-- A parser that knows no time stamp, and one checksum for all overlays.
abbrev lib : Library
lib = record { parse_from_rfc3339 = λ s. none; compute_overlay_checksum = λ b. "" }

abbrev alice : Identity
alice = record { principal = "alice"; principal_type = PrincipalType.human; role = "pact-ops-ml" }

abbrev bob : Identity
bob = record { principal = "bob"; principal_type = PrincipalType.human; role = "pact-ops-ml" }

abbrev swappiness : String → DeltaItem
swappiness v = record {
  action = DeltaAction.modify;
  key = "vm.swappiness";
  value = some v;
  previous = none;
}

abbrev kernel_entry : String → ConfigEntry
kernel_entry v = record {
  sequence = 0;
  timestamp = 0;
  entry_type = EntryType.commit;
  scope = Scope.node "n1";
  author = alice;
  parent = none;
  state_delta = some (record {
    mounts = [];
    files = [];
    network = [];
    services = [];
    kernel = swappiness v ∷ [];
    packages = [];
    gpu = [];
  });
  policy_ref = none;
  ttl_seconds = some 900;
  emergency_reason = none;
}

abbrev node : EnrollmentState → NodeEnrollment
node state = record {
  node_id = "n1";
  domain_id = "d";
  state = state;
  hardware_identity = record { mac_address = "AA:01"; bmc_serial = none; extra = [] };
  vcluster_id = some "ml";
  cert_serial = none;
  cert_expires_at = none;
  last_seen = none;
  enrolled_at = 0;
  enrolled_by = alice;
  active_sessions = 0;
}

abbrev request : PendingApproval
request = record {
  approval_id = "a1";
  original_request = "commit on ml";
  action = "commit";
  scope = Scope.vcluster "ml";
  requester = alice;
  approver = none;
  status = pending;
  created_at = 0;
  expires_at = 100;
}

abbrev granted : PendingApproval
granted = record request { status = approved; approver = some bob }

abbrev log : List (DateTime × JournalCommand)
log =
    (1, JournalCommand.append_entry (kernel_entry "10"))
    ∷ (2, JournalCommand.register_node (node EnrollmentState.registered))
    ∷ (3, JournalCommand.activate_node "n1" "c1" "later")
    ∷ (4, JournalCommand.create_approval request)
    ∷ (5, JournalCommand.decide_approval "a1" bob approved)
    ∷ []

abbrev enrolled : EnrollmentState → JournalState
enrolled state = record empty_state { enrollments = ("n1", node state) ∷ [] }

abbrev waiting : PendingApproval → JournalState
waiting a = record empty_state { pending_approvals = ("a1", a) ∷ [] }

abbrev active_node : NodeEnrollment
active_node = record (node EnrollmentState.active) { cert_serial = some "c1"; last_seen = some 3 }

-- The log leaves an active node and a granted approval.
log_test :
    (status "n1" (replay lib log empty_state) ≡ some EnrollmentState.active)
    × (lookup "a1" (replay lib log empty_state).pending_approvals ≡ some granted)
unfolding replay apply lookup insert contains_key append_entry register_node activate_node
    decide_approval
log_test = (refl, refl)

replay-IsWellFormed_example :
    IsWellFormed lib (replay lib log empty_state)
    × Each (λ n v. lookup n (replay lib log empty_state).entries ≡ some v) empty_state.entries
replay-IsWellFormed_example =
    replay-IsWellFormed lib log empty_state (empty-IsWellFormed lib) (omega arith)

append_entry-accepts_iff_example :
    (((append_entry (kernel_entry "10") empty_state).1 ≡ entry_appended 0)
      ↔ IsAcceptable 0 (kernel_entry "10"))
    × (IsAcceptable 0 (kernel_entry "10")
        → IsAppended
            (kernel_entry "10")
            empty_state
            (append_entry (kernel_entry "10") empty_state).0)
    × ((IsAcceptable 0 (kernel_entry "10") → ⊥)
        → (append_entry (kernel_entry "10") empty_state).0 ≡ empty_state)
append_entry-accepts_iff_example = append_entry-accepts_iff (kernel_entry "10") empty_state

apply-Step_example : Step "n1" (JournalCommand.revoke_node "n1") (some EnrollmentState.active) (
    status "n1" (apply lib 5 (JournalCommand.revoke_node "n1") (enrolled EnrollmentState.active)).0)
unfolding lookup
apply-Step_example =
    apply-Step lib 5 (JournalCommand.revoke_node "n1") (enrolled EnrollmentState.active) "n1"

revoked_stays_example :
    status "n1" (
      replay lib
        ((3, JournalCommand.activate_node "n1" "c1" "later") ∷ [])
        (enrolled EnrollmentState.revoked))
    ≡ some EnrollmentState.revoked
unfolding lookup
revoked_stays_example =
    revoked_stays lib ((3, JournalCommand.activate_node "n1" "c1" "later") ∷ []) "n1"
      (enrolled EnrollmentState.revoked) (λ p. cc, tt) refl

revoked_returns_example :
    let t =
      (apply lib 1 (JournalCommand.deactivate_node "n1") (enrolled EnrollmentState.revoked)).0 in
    let (u, answer) = apply lib 2 (JournalCommand.activate_node "n1" "c1" "later") t in
    (status "n1" u ≡ some EnrollmentState.active)
    × ((v : Option String) × (answer ≡ enrollment_result "n1" EnrollmentState.active v))
unfolding lookup
revoked_returns_example =
    revoked_returns lib 1 2 "n1" "c1" "later" (enrolled EnrollmentState.revoked) refl

replay-IsTwoPerson_example :
    Each (λ id a. IsTwoPerson a) (replay lib log empty_state).pending_approvals
replay-IsTwoPerson_example = replay-IsTwoPerson lib log empty_state (λ who p. cc, tt) (Each-nil _)

replay-one_node_per_hardware_example : ◌≡◌ {A = String} "n1" "n1"
unfolding replay apply lookup insert contains_key append_entry register_node activate_node
    decide_approval
replay-one_node_per_hardware_example =
    replay-one_node_per_hardware lib log "n1" "n1" active_node active_node (omega arith) refl refl
      refl

replicas_agree_example :
    (forget (
        replay lib
          ((3, JournalCommand.activate_node "n1" "c1" "later") ∷ [])
          (enrolled EnrollmentState.inactive))
      ≡ forget (
          replay lib
            ((8, JournalCommand.activate_node "n1" "c1" "later") ∷ [])
            (enrolled EnrollmentState.inactive)))
    × (responses lib
          ((3, JournalCommand.activate_node "n1" "c1" "later") ∷ [])
          (enrolled EnrollmentState.inactive)
        ≡ responses lib
            ((8, JournalCommand.activate_node "n1" "c1" "later") ∷ [])
            (enrolled EnrollmentState.inactive))
replicas_agree_example =
    replicas_agree lib ((3, JournalCommand.activate_node "n1" "c1" "later") ∷ [])
      ((8, JournalCommand.activate_node "n1" "c1" "later") ∷ []) (enrolled EnrollmentState.inactive)
      (enrolled EnrollmentState.inactive) refl refl

activation_depends_on_clock_example :
    (apply lib 3
      (JournalCommand.activate_node "n1" "c1" "later")
      (enrolled EnrollmentState.inactive)).0
    ≢ (apply lib 8
        (JournalCommand.activate_node "n1" "c1" "later")
        (enrolled EnrollmentState.inactive)).0
unfolding lookup
activation_depends_on_clock_example =
    activation_depends_on_clock lib 3 8 "n1" "c1" "later" (enrolled EnrollmentState.inactive) refl
      (inr refl) (λ p. cc)

apply-refused_example :
    (apply lib 0 (JournalCommand.revoke_node "n2") (enrolled EnrollmentState.active)).0
    ≡ enrolled EnrollmentState.active
unfolding apply revoke_node lookup
apply-refused_example =
    apply-refused lib 0 (JournalCommand.revoke_node "n2") (enrolled EnrollmentState.active)
      (node_not_enrolled "n2") refl

abbrev start : AdminOperation
start = record {
  operation_id = "o1";
  timestamp = 1;
  actor = alice;
  operation_type = AdminOperationType.exec;
  scope = Scope.node "n1";
  detail = "ls";
}

record_operation-audit_log_example :
    let kept = (record_operation start empty_state).0.audit_log in
    (length kept ≤ audit_log_max)
    × ((dropped : List AdminOperation) × (start ∷ [] ≡ dropped ++ kept)
        × (length dropped ≡ 1 - audit_log_max))
record_operation-audit_log_example = record_operation-audit_log start empty_state

abbrev one_entry : JournalState
one_entry = record empty_state {
  entries = (0, kernel_entry "10") ∷ [];
  next_sequence = 1;
  node_assignments = ("n1", "ml") ∷ [];
}

detect_conflicts_iff_example :
    let c : ConflictEntry = record {
      key = "vm.swappiness";
      local_value = "60";
      journal_value = "10";
    } in
    In c (detect_conflicts "n1" (kernel_entry "60" ∷ []) one_entry)
    ↔ IsConflict (kernel_entry "60" ∷ []) one_entry c
detect_conflicts_iff_example =
    detect_conflicts_iff "n1" (kernel_entry "60" ∷ []) one_entry
      (record { key = "vm.swappiness"; local_value = "60"; journal_value = "10" })

check_homogeneity_complete_example :
    (w : HomogeneityWarning) × In w (check_homogeneity "ml" one_entry)
    × (w.node_id ≡ "n1")
    × ((k : String) → In k w.delta_keys ↔ HasDelta one_entry "n1" k)
check_homogeneity_complete_example =
    check_homogeneity_complete "ml" one_entry "n1" "vm.swappiness" (here refl) (record {
      entry = kernel_entry "10";
      entry_in = (0, here refl);
      scoped = refl;
      item = swappiness "10";
      item_in = record { delta = _; recorded = refl; item_in = here refl };
      keyed = refl;
    })

abbrev keys : List String
keys = "vm.swappiness" ∷ []

check_homogeneity_sound_example :
    In ("n1", "ml") one_entry.node_assignments
    × (keys ≢ [])
    × ((k : String) → In k keys → HasDelta one_entry "n1" k)
unfolding check_homogeneity delta_keys
check_homogeneity_sound_example =
    check_homogeneity_sound "ml" one_entry (record { node_id = "n1"; delta_keys = keys })
      (here refl)
