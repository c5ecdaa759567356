-- ===== src/Journal/Enrollment.antt =====
-- crates/pact-journal/src/enrollment_service.rs: the calls of EnrollmentService that change the
-- journal. A call returns the journal's new state with its reply; what it reads of the journal is the
-- state at its beginning, and `call` holds the clock and the fresh identifiers that it uses.
pub mod Calls
pub mod Enroll
pub mod Listing
pub mod Scoping
pub mod Entitlement
pub mod Admission
use Prim.Native.String.{◌++◌}
use mathlib.Core.Option
use pact.Base.{
  ℕ, ◌+◌, ◌%◌, ◌^◌, String, String_eq, Bool, true, false, not, ◌&&◌, ◌||◌, Option, none, some, List,
  [], ◌∷◌, ◌==◌, ltb, if◌then◌else◌,
}
use pact.Base.Map.{Map, lookup}
use pact.Base.Text.{is_empty, strip_prefix}
use pact.Base.Decimal.{to_string}
use pact.Types.{
  NodeId, VClusterId, DateTime, Identity, PrincipalType, Scope, HardwareIdentity, NodeEnrollment,
  EnrollmentState, AdminOperation, AdminOperationType, seconds,
}
use pact.Journal.Command.{JournalCommand, JournalResponse, Reason}
use pact.Journal.State.{JournalState, Library, hw_canonical_key}
use pact.Journal.Raft.{Raft, WriteResult, Written}
use pact.Journal.Wire.{Status, Reply, answer, error}
use pact.Journal.Authority.{Rcgen, CaKeyManager, SignedCertResult, Signing, sign_csr}

-- The authorization header: `none` where it is missing, `some none` where it is no text.
abbrev pub Header : Type 0
Header = Option (Option String)

-- The message `HardwareIdentity` of proto/pact/enrollment.proto.
pub record ProtoHardware : Type 0 where
  pub mac_address : String
  pub bmc_serial : String
  pub extra : Map String String

-- A token validator's answer: who the caller is, or the text of its error.
pub data Validation : Type 0 where
  valid : Identity → Validation
  invalid : String → Validation

-- The clock at a call, the clock while Raft applies, and the fresh identifiers.
pub record CallTime : Type 0 where
  pub now : DateTime
  pub later : DateTime
  pub operation_id : String
  pub placeholder_serial : String
  pub cert_serial : String

unfoldable pub extract_token : Header → Reply String
extract_token none = error (Status.unauthenticated "missing authorization header")
extract_token (some none) = error (Status.unauthenticated "invalid authorization header")
extract_token (some (some value)) = elim (strip_prefix "Bearer " value) [
  | none ↦ error (Status.unauthenticated "expected Bearer token")
  | some token ↦ answer token
]

unfoldable pub proto_hw_to_domain : ProtoHardware → HardwareIdentity
proto_hw_to_domain hw = record {
  mac_address = hw.mac_address;
  bmc_serial = if is_empty hw.bmc_serial then none else some hw.bmc_serial;
  extra = hw.extra;
}

abbrev pub admin_role : String
admin_role = "pact-platform-admin"

unfoldable pub state_name : EnrollmentState → String
state_name EnrollmentState.registered = "Registered"
state_name EnrollmentState.active = "Active"
state_name EnrollmentState.inactive = "Inactive"
state_name EnrollmentState.revoked = "Revoked"

-- The record of a node that an administrator registers.
unfoldable pub new_enrollment : String → String → DateTime → NodeId → ProtoHardware → NodeEnrollment
new_enrollment domain_id principal now node_id hw = record {
  node_id = node_id;
  domain_id = domain_id;
  state = EnrollmentState.registered;
  hardware_identity = proto_hw_to_domain hw;
  vcluster_id = none;
  cert_serial = none;
  cert_expires_at = none;
  last_seen = none;
  enrolled_at = now;
  enrolled_by = record {
    principal = principal;
    principal_type = PrincipalType.human;
    role = admin_role;
  };
  active_sessions = 0;
}

abbrev pub raft_failure : String → Status
raft_failure text = Status.internal ("Raft write failed: " ++ text)

-- The reply to a command that the state machine answers with `Ok`.
unfoldable pub ok_reply : {A : Type 0} → A → WriteResult → Reply A
ok_reply a (WriteResult.failed text) = error (raft_failure text)
ok_reply a (WriteResult.response JournalResponse.ok) = answer a
ok_reply a (WriteResult.response (JournalResponse.validation_error reason)) =
    error (Status.failed_precondition reason)
ok_reply a (WriteResult.response (JournalResponse.entry_appended n)) =
    error (Status.internal "unexpected response")
ok_reply a (WriteResult.response (JournalResponse.enrollment_result n t v)) =
    error (Status.internal "unexpected response")

-- The reply to a registration: the node and its state.
unfoldable pub register_reply : WriteResult → Reply (NodeId × String)
register_reply (WriteResult.failed text) = error (raft_failure text)
register_reply (WriteResult.response (JournalResponse.enrollment_result n t v)) =
    answer (n, state_name t)
register_reply (WriteResult.response (JournalResponse.validation_error reason)) =
    error (Status.failed_precondition reason)
register_reply (WriteResult.response _) = error (Status.internal "unexpected Raft response")

-- What the service holds: Raft, the validator of tokens, the certificate authority and the domain.
pub record EnrollmentService (lib : Library) : Type 0 where
  pub raft : Raft lib
  pub validate : String → Validation
  pub rcgen : Rcgen
  pub ca : CaKeyManager
  pub domain_id : String

module _ {lib : Library} (svc : EnrollmentService lib) where
  unfoldable pub validate_token_str : String → Reply Identity
  validate_token_str token = elim (svc.validate token) [
    | Validation.valid id ↦ answer id
    | Validation.invalid text ↦ error (Status.unauthenticated ("invalid token: " ++ text))
  ]

  unfoldable pub caller : Header → Reply Identity
  caller header = elim (extract_token header) [
    | error status ↦ error status
    | answer token ↦ validate_token_str token
  ]

  -- The caller, if the role passes a test.
  unfoldable pub caller_with : (String → Bool) → String → Header → Reply Identity
  caller_with may refusal header = elim (caller header) [
    | error status ↦ error status
    | answer id ↦ if may id.role then answer id else error (Status.permission_denied refusal)
  ]

  abbrev pub admin : Header → Reply Identity
  admin header = caller_with (λ role. role == admin_role) "requires pact-platform-admin" header

  unfoldable pub audit_enrollment :
      CallTime → AdminOperationType → NodeId → String → JournalState → JournalState
  audit_enrollment call op node_id detail s =
      (svc.raft.client_write call.later
        (JournalCommand.record_operation (record {
          operation_id = call.operation_id;
          timestamp = call.now;
          actor = record {
            principal = "enrollment-service";
            principal_type = PrincipalType.service;
            role = "pact-service-agent";
          };
          operation_type = op;
          scope = Scope.node node_id;
          detail = detail;
        }))
        s).0

  unfoldable pub register_as :
      Identity
      → CallTime
      → NodeId
      → Option ProtoHardware
      → JournalState
      → JournalState × Reply (NodeId × String)
  register_as id call node_id none s =
      (s, error (Status.invalid_argument "hardware_identity required"))
  register_as id call node_id (some hw) s =
      let w =
        svc.raft.client_write call.later
          (JournalCommand.register_node
            (new_enrollment svc.domain_id id.principal call.now node_id hw))
          s in
      (w.0, register_reply w.1)

  unfoldable pub register_node :
      Header
      → CallTime
      → NodeId
      → Option ProtoHardware
      → JournalState
      → JournalState × Reply (NodeId × String)
  register_node header call node_id hw s = elim (admin header) [
    | error status ↦ (s, error status)
    | answer id ↦ register_as id call node_id hw s
  ]
  -- The journal and one reply for each node, in their order.
