-- ===== src/Journal/Enrollment/Calls.antt =====
-- crates/pact-journal/src/enrollment_service.rs: batches of registrations, the assignment of nodes to
-- vClusters, and certificates.
use Prim.Native.String.{◌++◌}
use mathlib.Core.Option
use pact.Base.{
  ℕ, ◌+◌, ◌%◌, ◌^◌, String, String_eq, Bool, true, false, not, ◌&&◌, ◌||◌, Option, none, some, List,
  [], ◌∷◌, ◌++◌ as ◌+++◌, ◌==◌, ltb, if◌then◌else◌,
}
use pact.Base.Map.{Map, lookup}
use pact.Base.Decimal.{to_string}
use pact.Types.{NodeId, VClusterId, Identity, NodeEnrollment}
use pact.Journal.Command.{JournalCommand, JournalResponse, Reason}
use pact.Journal.State.{JournalState, Library}
use pact.Journal.Raft.{WriteResult}
use pact.Journal.Wire.{Status, Reply, answer, error}
use pact.Journal.Authority.{SignedCertResult, Signing, sign_csr}
use pact.Journal.Enrollment.{
  Header, ProtoHardware, CallTime, EnrollmentService, admin_role, state_name, new_enrollment,
  raft_failure, ok_reply, caller, caller_with, admin,
}

-- The texts of a batch's errors.
pub data BatchError : Type 0 where
  hardware_required unexpected_response : BatchError
  refused : Reason → BatchError
  raft_error : String → BatchError

pub record BatchNodeResult : Type 0 where
  pub node_id : NodeId
  pub success : Bool
  pub enrollment_state : String
  pub error : Option BatchError

pub record BatchRegisterNodesResponse : Type 0 where
  pub results : List BatchNodeResult
  pub succeeded : ℕ
  pub failed : ℕ

abbrev pub batch_failure : NodeId → BatchError → BatchNodeResult
batch_failure node_id e = record {
  node_id = node_id;
  success = false;
  enrollment_state = "";
  error = some e;
}

unfoldable pub batch_result : NodeId → WriteResult → BatchNodeResult
batch_result node_id (WriteResult.failed text) = batch_failure node_id (BatchError.raft_error text)
batch_result node_id (WriteResult.response (JournalResponse.enrollment_result n t v)) = record {
  node_id = n;
  success = true;
  enrollment_state = state_name t;
  error = none;
}
batch_result node_id (WriteResult.response (JournalResponse.validation_error reason)) =
    batch_failure node_id (BatchError.refused reason)
batch_result node_id (WriteResult.response _) = batch_failure node_id BatchError.unexpected_response

-- The push of a result with its counter, a `u32`.
unfoldable pub count_result :
    BatchNodeResult → BatchRegisterNodesResponse → BatchRegisterNodesResponse
count_result r out =
    if r.success
    then record out { results = out.results +++ (r ∷ []); succeeded = (out.succeeded + 1) % 2 ^ 32 }
    else record out { results = out.results +++ (r ∷ []); failed = (out.failed + 1) % 2 ^ 32 }

abbrev pub sessions_open : ℕ → String
sessions_open n = to_string n ++ " active session(s) on this node — use --force to terminate"

abbrev pub serial_matches : String → NodeEnrollment → Bool
serial_matches serial e = elim e.cert_serial [ none ↦ false | some s ↦ s == serial ]

-- `values().find(…)`.
unfoldable pub find_by_serial : String → Map NodeId NodeEnrollment → Option NodeEnrollment
find_by_serial serial [] = none
find_by_serial serial ((n, e) ∷ m) =
    if serial_matches serial e then some e else find_by_serial serial m

abbrev pub update_cert : NodeId → SignedCertResult → JournalCommand
update_cert node_id cert =
    JournalCommand.update_node_cert node_id cert.cert_serial cert.cert_expires_at

abbrev pub renew_reply : SignedCertResult → WriteResult → Reply SignedCertResult
renew_reply cert (WriteResult.failed text) = error (raft_failure text)
renew_reply cert (WriteResult.response r) = answer cert

module _ {lib : Library} (svc : EnrollmentService lib) where
  unfoldable pub register_each :
      Identity
      → CallTime
      → List (NodeId × Option ProtoHardware)
      → BatchRegisterNodesResponse
      → JournalState
      → JournalState × BatchRegisterNodesResponse
  register_each id call [] out s = (s, out)
  register_each id call ((node_id, none) ∷ nodes) out s =
      register_each id call nodes
        (count_result (batch_failure node_id BatchError.hardware_required) out) s
  register_each id call ((node_id, some hw) ∷ nodes) out s =
      let w =
        svc.raft.client_write call.later
          (JournalCommand.register_node
            (new_enrollment svc.domain_id id.principal call.now node_id hw))
          s in
      register_each id call nodes (count_result (batch_result node_id w.1) out) w.0

  unfoldable pub batch_register_nodes :
      Header
      → CallTime
      → List (NodeId × Option ProtoHardware)
      → JournalState
      → JournalState × Reply BatchRegisterNodesResponse
  batch_register_nodes header call nodes s = elim (admin svc header) [
    | error status ↦ (s, error status)
    | answer id ↦
        let r =
          register_each id call nodes (record { results = []; succeeded = 0; failed = 0 }) s in
        (r.0, answer r.1)
  ]

  -- A command whose answer is `Ok`, with the reply for it.
  unfoldable pub write_ok :
      {A : Type 0} → CallTime → JournalCommand → A → JournalState → JournalState × Reply A
  write_ok call command a s =
      let w = svc.raft.client_write call.later command s in (w.0, ok_reply a w.1)

  -- The revocation, and the serial of the certificate that goes with it.
  unfoldable pub revoke_as :
      CallTime
      → NodeId
      → Bool
      → Option NodeEnrollment
      → JournalState
      → JournalState × Reply (NodeId × String)
  revoke_as call node_id force none s =
      write_ok call (JournalCommand.revoke_node node_id) (node_id, "") s
  revoke_as call node_id force (some e) s =
      if ltb 0 e.active_sessions && not force
      then (s, error (Status.refused_precondition (sessions_open e.active_sessions)))
      else write_ok call (JournalCommand.revoke_node node_id)
          (node_id, Option.get_or e.cert_serial "") s

  unfoldable pub decommission_node :
      Header → CallTime → NodeId → Bool → JournalState → JournalState × Reply (NodeId × String)
  decommission_node header call node_id force s = elim (admin svc header) [
    | error status ↦ (s, error status)
    | answer id ↦ revoke_as call node_id force (lookup node_id s.enrollments) s
  ]

  unfoldable pub assign_node :
      Header
      → CallTime
      → NodeId
      → VClusterId
      → JournalState
      → JournalState × Reply (NodeId × VClusterId)
  assign_node header call node_id vcluster_id s =
      elim (caller_with svc (λ role. role == admin_role || role == "pact-ops-" ++ vcluster_id)
        "requires platform-admin or ops role" header) [
          | error status ↦ (s, error status)
          | answer id ↦
              write_ok call (JournalCommand.assign_node_to_vcluster node_id vcluster_id)
                (node_id, vcluster_id) s
        ]

  unfoldable pub unassign_node :
      Header → CallTime → NodeId → JournalState → JournalState × Reply NodeId
  unassign_node header call node_id s = elim (caller svc header) [
    | error status ↦ (s, error status)
    | answer id ↦ write_ok call (JournalCommand.unassign_node node_id) node_id s
  ]

  unfoldable pub from_vcluster : NodeId → JournalState → VClusterId
  from_vcluster node_id s = elim (lookup node_id s.enrollments) [
    | none ↦ ""
    | some e ↦ Option.get_or e.vcluster_id ""
  ]

  -- The node, where it was and where it is.
  unfoldable pub move_node :
      Header
      → CallTime
      → NodeId
      → VClusterId
      → JournalState
      → JournalState × Reply (NodeId × VClusterId × VClusterId)
  move_node header call node_id to s = elim (caller svc header) [
    | error status ↦ (s, error status)
    | answer id ↦
        write_ok call (JournalCommand.move_node_vcluster node_id (from_vcluster node_id s) to)
          (node_id, from_vcluster node_id s, to) s
  ]

  unfoldable pub renewed_by :
      CallTime → NodeId → Signing → JournalState → JournalState × Reply SignedCertResult
  renewed_by call node_id (Signing.signing_failed text) s =
      (s, error (Status.internal ("CSR signing failed: " ++ text)))
  renewed_by call node_id (Signing.signed cert) s =
      let w = svc.raft.client_write call.later (update_cert node_id cert) s in
      (w.0, renew_reply cert w.1)

  unfoldable pub renew_found :
      CallTime
      → List ℕ
      → Option NodeEnrollment
      → JournalState
      → JournalState × Reply SignedCertResult
  renew_found call csr none s =
      (s, error (Status.not_found "no enrollment for this certificate serial"))
  renew_found call csr (some e) s =
      renewed_by call e.node_id
        (sign_csr svc.rcgen svc.ca call.cert_serial call.now csr e.node_id svc.domain_id) s

  unfoldable pub renew_cert :
      Header → CallTime → String → List ℕ → JournalState → JournalState × Reply SignedCertResult
  renew_cert header call serial csr s = elim (caller svc header) [
    | error status ↦ (s, error status)
    | answer id ↦ renew_found call csr (find_by_serial serial s.enrollments) s
  ]
