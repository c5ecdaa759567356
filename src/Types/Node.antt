-- ===== src/Types/Node.antt =====
-- crates/pact-common/src/types.rs: enrollment records, overlays and the audit log's operations.
use pact.Base.{ℕ, String, Option, List}
use pact.Base.Map.{Map}
use pact.Types.Entry.{NodeId, VClusterId, DateTime, Identity, Scope}

pub data EnrollmentState : Type 0 where
  registered active inactive revoked : EnrollmentState

pub record HardwareIdentity : Type 0 where
  pub mac_address : String
  pub bmc_serial : Option String
  pub extra : Map String String

pub record NodeEnrollment : Type 0 where
  pub node_id : NodeId
  pub domain_id : String
  pub state : EnrollmentState
  pub hardware_identity : HardwareIdentity
  pub vcluster_id : Option VClusterId
  pub cert_serial : Option String
  pub cert_expires_at : Option DateTime
  pub last_seen : Option DateTime
  pub enrolled_at : DateTime
  pub enrolled_by : Identity
  pub active_sessions : ℕ

pub record BootOverlay : Type 0 where
  pub vcluster_id : VClusterId
  pub version : ℕ
  pub bytes : List ℕ  -- `data`
  pub checksum : String

pub data AdminOperationType : Type 0 where
  exec shell_session_start shell_session_end service_start service_stop : AdminOperationType
  service_restart emergency_start emergency_end approval_decision node_enroll : AdminOperationType
  node_decommission node_assign node_unassign node_move cert_renew : AdminOperationType
  cert_revoke : AdminOperationType

pub record AdminOperation : Type 0 where
  pub operation_id : String
  pub timestamp : DateTime
  pub actor : Identity
  pub operation_type : AdminOperationType
  pub scope : Scope
  pub detail : String
