-- ===== src/Journal/Wire.antt =====
-- proto/pact/config.proto and journal.proto: the messages of ConfigService as prost decodes them. An
-- `i32` or an `i64` stands for its bit pattern. The names of nested messages carry no prefix.
use pact.Base.{ℕ, String, Bool, Option, List}
use pact.Journal.Command.{Reason}
use pact.Types.{VClusterId, EntrySeq}

pub record Timestamp : Type 0 where
  pub seconds : ℕ
  pub nanos : ℕ

pub record Duration : Type 0 where
  pub seconds : ℕ
  pub nanos : ℕ

-- The `oneof` inside the message `Scope`.
pub data ScopeKind : Type 0 where
  node_id vcluster_id : String → ScopeKind
  global : Bool → ScopeKind

pub record ProtoScope : Type 0 where
  pub scope : Option ScopeKind

pub record ProtoIdentity : Type 0 where
  pub principal : String
  pub principal_type : String
  pub role : String

pub record MountSpec : Type 0 where
  pub fs_type : String
  pub source : String
  pub options : String
  pub read_only : Bool

pub record MountDelta : Type 0 where
  pub path : String
  pub action : ℕ
  pub declared : Option MountSpec
  pub actual : Option MountSpec

pub record FileDelta : Type 0 where
  pub path : String
  pub action : ℕ
  pub content_hash : Option String
  pub mode : Option ℕ
  pub owner : Option String

pub record NetworkDelta : Type 0 where
  pub interface : String
  pub action : ℕ
  pub detail : Option String

pub record ServiceDelta : Type 0 where
  pub name : String
  pub action : ℕ
  pub declared_state : Option String
  pub actual_state : Option String

pub record KernelDelta : Type 0 where
  pub key : String
  pub action : ℕ
  pub declared_value : Option String
  pub actual_value : Option String

pub record PackageDelta : Type 0 where
  pub name : String
  pub action : ℕ
  pub version : Option String

pub record GpuDelta : Type 0 where
  pub gpu_index : ℕ
  pub action : ℕ
  pub detail : Option String

pub record ProtoStateDelta : Type 0 where
  pub mounts : List MountDelta
  pub files : List FileDelta
  pub network : List NetworkDelta
  pub services : List ServiceDelta
  pub kernel : List KernelDelta
  pub packages : List PackageDelta
  pub gpu : List GpuDelta

pub record ProtoConfigEntry : Type 0 where
  pub sequence : EntrySeq
  pub timestamp : Option Timestamp
  pub entry_type : ℕ
  pub scope : Option ProtoScope
  pub author : Option ProtoIdentity
  pub parent : Option EntrySeq
  pub state_delta : Option ProtoStateDelta
  pub policy_ref : String
  pub ttl : Option Duration
  pub emergency_reason : Option String

pub record ListEntriesRequest : Type 0 where
  pub scope : Option ProtoScope
  pub from_sequence : Option EntrySeq
  pub to_sequence : Option EntrySeq
  pub limit : Option ℕ

pub record OverlayResponse : Type 0 where
  pub vcluster_id : VClusterId
  pub version : ℕ
  pub bytes : List ℕ  -- `data`
  pub checksum : String

-- tonic's `Status`: its code with the message, or with the reason that becomes the message.
pub data Status : Type 0 where
  invalid_argument not_found internal permission_denied unauthenticated : String → Status
  already_exists refused_precondition : String → Status
  resource_exhausted : String → Status
  failed_precondition : Reason → Status

pub data Reply {ℓ} (A : Type ℓ) : Type ℓ where
  answer : A → Reply A
  error : Status → Reply A
