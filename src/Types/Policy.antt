-- ===== src/Types/Policy.antt =====
-- crates/pact-common/src/types.rs: vCluster policies and two-person approvals.
use pact.Base.{ℕ, String, Option, none, List, [], Bool, true, false}
use pact.Types.Entry.{VClusterId, DateTime, F64, Identity, Scope}

pub record RoleBinding : Type 0 where
  pub role : String
  pub principals : List String
  pub allowed_actions : List String

pub record VClusterPolicy : Type 0 where
  pub vcluster_id : VClusterId
  pub policy_id : String
  pub updated_at : Option DateTime
  pub drift_sensitivity : F64
  pub base_commit_window_seconds : ℕ
  pub emergency_window_seconds : ℕ
  pub auto_converge_categories : List String
  pub require_ack_categories : List String
  pub enforcement_mode : String
  pub role_bindings : List RoleBinding
  pub regulated : Bool
  pub two_person_approval : Bool
  pub emergency_allowed : Bool
  pub audit_retention_days : ℕ
  pub ai_exec_allowed : Bool
  pub federation_template : Option String
  pub supervisor_backend : String
  pub exec_whitelist : List String
  pub shell_whitelist : List String

-- `VClusterPolicy::default()`; 2.0 has the bit pattern 0x4000000000000000.
abbrev pub default_policy : VClusterPolicy
default_policy = record {
  vcluster_id = "";
  policy_id = "";
  updated_at = none;
  drift_sensitivity = 0x4000000000000000;
  base_commit_window_seconds = 900;
  emergency_window_seconds = 14400;
  auto_converge_categories = [];
  require_ack_categories = [];
  enforcement_mode = "observe";
  role_bindings = [];
  regulated = false;
  two_person_approval = false;
  emergency_allowed = true;
  audit_retention_days = 2555;
  ai_exec_allowed = false;
  federation_template = none;
  supervisor_backend = "pact";
  exec_whitelist = [];
  shell_whitelist = [];
}

pub data ApprovalStatus : Type 0 where
  pending approved rejected expired : ApprovalStatus

-- `status == ApprovalStatus::Pending`.
abbrev pub is_pending : ApprovalStatus → Bool
is_pending pending = true
is_pending _ = false

pub record PendingApproval : Type 0 where
  pub approval_id : String
  pub original_request : String
  pub action : String
  pub scope : Scope
  pub requester : Identity
  pub approver : Option Identity
  pub status : ApprovalStatus
  pub created_at : DateTime
  pub expires_at : DateTime
