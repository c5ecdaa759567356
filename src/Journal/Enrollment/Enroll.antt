-- ===== src/Journal/Enrollment/Enroll.antt =====
-- crates/pact-journal/src/enrollment_service.rs: `enroll`, by which an agent without a certificate
-- presents its hardware and is given one.
use Prim.Native.String.{◌++◌}
use mathlib.Core.Option
use pact.Base.{ℕ, ◌+◌, String, String_eq, Option, none, some, List, if◌then◌else◌}
use pact.Base.Map.{lookup}
use pact.Types.{
  NodeId, VClusterId, DateTime, NodeEnrollment, EnrollmentState, AdminOperationType, seconds,
}
use pact.Journal.Command.{JournalCommand, JournalResponse}
use pact.Journal.State.{JournalState, Library, hw_canonical_key}
use pact.Journal.Raft.{WriteResult, Written}
use pact.Journal.Wire.{Status, Reply, answer, error}
use pact.Journal.Authority.{SignedCertResult, Signing, sign_csr}
use pact.Journal.RateLimiter.{Floats, RateLimiter, try_acquire}
use pact.Journal.Enrollment.{
  ProtoHardware, CallTime, EnrollmentService, proto_hw_to_domain, raft_failure, audit_enrollment,
}
use pact.Journal.Enrollment.Calls.{update_cert}

pub record EnrollResponse : Type 0 where
  pub node_id : NodeId
  pub domain_id : String
  pub vcluster_id : VClusterId
  pub cert : SignedCertResult

abbrev pub Enrolled : Type 0
Enrolled = JournalState × Reply EnrollResponse

-- Three days.
abbrev pub placeholder_expiry : DateTime → DateTime
placeholder_expiry now = now + seconds 259200

module _ {lib : Library} (svc : EnrollmentService lib) (call : CallTime) where
  abbrev pub audit : NodeId → String → JournalState → JournalState
  audit node_id detail s = audit_enrollment svc call AdminOperationType.node_enroll node_id detail s

  -- The certificate is written to the journal, and the enrollment to its audit log.
  unfoldable pub certified : NodeId → Option VClusterId → Signing → JournalState → Enrolled
  certified node_id vcluster_id (Signing.signing_failed text) s =
      (s, error (Status.internal ("CSR signing failed: " ++ text)))
  certified node_id vcluster_id (Signing.signed cert) s = (
    audit node_id ("SUCCESS: node activated, cert_serial=" ++ cert.cert_serial)
        (svc.raft.client_write call.later (update_cert node_id cert) s).0,
    answer (record {
      node_id = node_id;
      domain_id = svc.domain_id;
      vcluster_id = Option.get_or vcluster_id "";
      cert = cert;
    }),
  )

  unfoldable pub activated_reply : NodeId → List ℕ → Written → Enrolled
  activated_reply node_id csr (s, WriteResult.failed text) = (s, error (raft_failure text))
  activated_reply node_id csr
        (s, WriteResult.response (JournalResponse.enrollment_result n t vcluster_id)) =
      certified node_id vcluster_id
        (sign_csr svc.rcgen svc.ca call.cert_serial call.now csr node_id svc.domain_id) s
  activated_reply node_id csr (s, WriteResult.response (JournalResponse.validation_error reason)) =
      (s, error (Status.failed_precondition reason))
  activated_reply node_id csr (s, WriteResult.response _) =
      (s, error (Status.internal "unexpected Raft response"))

  unfoldable pub activation : NodeId → JournalCommand
  activation node_id =
      JournalCommand.activate_node node_id call.placeholder_serial
        (svc.rcgen.to_rfc3339 (placeholder_expiry call.now))

  unfoldable pub enroll_node : NodeId → List ℕ → Option NodeEnrollment → JournalState → Enrolled
  enroll_node node_id csr none s = (s, error (Status.internal "enrollment index inconsistency"))
  enroll_node node_id csr (some e) s = elim e.state [
    | EnrollmentState.revoked ↦
        (audit node_id "REJECTED: NODE_REVOKED" s, error (Status.permission_denied "NODE_REVOKED"))
    | EnrollmentState.active ↦
        (audit node_id "REJECTED: ALREADY_ACTIVE" s, error (Status.already_exists "ALREADY_ACTIVE"))
    | _ ↦ activated_reply node_id csr (svc.raft.client_write call.later (activation node_id) s)
  ]

  unfoldable pub enroll_hardware : ProtoHardware → List ℕ → JournalState → Enrolled
  enroll_hardware hw csr s = elim (lookup (hw_canonical_key (proto_hw_to_domain hw)) s.hw_index) [
    | none ↦ (
      audit hw.mac_address ("REJECTED: NODE_NOT_ENROLLED mac=" ++ hw.mac_address) s,
      error (Status.not_found "NODE_NOT_ENROLLED"),
    )
    | some node_id ↦ enroll_node node_id csr (lookup node_id s.enrollments) s
  ]

  -- The limiter after the call, and what the call does.
  unfoldable pub enroll :
      Floats → RateLimiter → Option ProtoHardware → List ℕ → JournalState → RateLimiter × Enrolled
  enroll fl limiter hw csr s =
      let taken = try_acquire fl call.now limiter in
      if taken.1
      then elim hw [
        | none ↦ (taken.0, (s, error (Status.invalid_argument "hardware_identity required")))
        | some h ↦ (taken.0, enroll_hardware h csr s)
      ]
      else (taken.0, (s, error (Status.resource_exhausted "RATE_LIMITED")))
