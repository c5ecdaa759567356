-- ===== src/Types/Entry.antt =====
-- crates/pact-common/src/types.rs: identities, scopes, journal entries and their deltas.
use pact.Base.{ℕ, ◌*◌, String, Option, List}

abbrev pub NodeId : Type 0
NodeId = String

abbrev pub VClusterId : Type 0
VClusterId = String

abbrev pub EntrySeq : Type 0
EntrySeq = ℕ

abbrev pub DateTime : Type 0
DateTime = ℕ

-- `Duration::seconds`.
abbrev pub seconds : ℕ → ℕ
seconds n = n * 1000000000

abbrev pub F64 : Type 0
F64 = ℕ

pub data ConfigState : Type 0 where
  observe_only committed drifted converging emergency : ConfigState

pub data EntryType : Type 0 where
  commit rollback auto_converge drift_detected capability_change policy_update : EntryType
  boot_config emergency_start emergency_end exec_log shell_session service_lifecycle : EntryType
  pending_approval node_enrolled node_activated node_deactivated : EntryType
  node_decommissioned node_assigned node_unassigned cert_signed cert_revoked : EntryType

pub data Scope : Type 0 where
  global : Scope
  vcluster : VClusterId → Scope
  node : NodeId → Scope

pub data PrincipalType : Type 0 where
  human agent service : PrincipalType

pub record Identity : Type 0 where
  pub principal : String
  pub principal_type : PrincipalType
  pub role : String

pub data DeltaAction : Type 0 where
  add remove modify : DeltaAction

pub record DeltaItem : Type 0 where
  pub action : DeltaAction
  pub key : String
  pub value : Option String
  pub previous : Option String

pub record StateDelta : Type 0 where
  pub mounts : List DeltaItem
  pub files : List DeltaItem
  pub network : List DeltaItem
  pub services : List DeltaItem
  pub kernel : List DeltaItem
  pub packages : List DeltaItem
  pub gpu : List DeltaItem

pub record ConfigEntry : Type 0 where
  pub sequence : EntrySeq
  pub timestamp : DateTime
  pub entry_type : EntryType
  pub scope : Scope
  pub author : Identity
  pub parent : Option EntrySeq
  pub state_delta : Option StateDelta
  pub policy_ref : Option String
  pub ttl_seconds : Option ℕ
  pub emergency_reason : Option String
