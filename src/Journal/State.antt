-- ===== src/Journal/State.antt =====
-- crates/pact-journal/src/raft/state.rs: the replicated state, its bounds, and the key by which
-- hardware is recognised.
use Prim.Native.String.{◌++◌}
use pact.Base.{ℕ, ◌*◌, ◌^◌, ◌%◌, String, Option, none, some, List, [], if◌then◌else◌}
use pact.Base.Map.{Map}
use pact.Base.Text.{is_empty, to_lowercase}
use pact.Types.{
  NodeId, VClusterId, EntrySeq, DateTime, ConfigState, ConfigEntry, HardwareIdentity,
  NodeEnrollment, BootOverlay, AdminOperation, VClusterPolicy, PendingApproval,
}

pub record JournalState : Type 0 where
  pub entries : Map EntrySeq ConfigEntry
  pub next_sequence : EntrySeq
  pub node_states : Map NodeId ConfigState
  pub policies : Map VClusterId VClusterPolicy
  pub overlays : Map VClusterId BootOverlay
  pub audit_log : List AdminOperation
  pub node_assignments : Map NodeId VClusterId
  pub pending_approvals : Map String PendingApproval
  pub enrollments : Map NodeId NodeEnrollment
  pub hw_index : Map String NodeId
  pub revoked_serials : List String

-- `JournalState::default()`.
abbrev pub empty_state : JournalState
empty_state = record {
  entries = [];
  next_sequence = 0;
  node_states = [];
  policies = [];
  overlays = [];
  audit_log = [];
  node_assignments = [];
  pending_approvals = [];
  enrollments = [];
  hw_index = [];
  revoked_serials = [];
}

abbrev pub ttl_min_seconds : ℕ
ttl_min_seconds = 900

abbrev pub ttl_max_seconds : ℕ
ttl_max_seconds = 864000

abbrev pub overlay_max_bytes : ℕ
overlay_max_bytes = 10 * 1024 * 1024

abbrev pub audit_log_max : ℕ
audit_log_max = 100000

-- `+= 1` on a `u64`, which wraps in a release build.
abbrev pub u64 : ℕ → ℕ
u64 n = n % 2 ^ 64

-- What the handlers call outside the repository: chrono's parser of time stamps, and the hash of
-- `compute_overlay_checksum`, whose algorithm the standard library leaves open.
pub record Library : Type 0 where
  pub parse_from_rfc3339 : String → Option DateTime
  pub compute_overlay_checksum : List ℕ → String

bmc_part : Option String → String
bmc_part none = ""
bmc_part (some serial) = if is_empty serial then "" else ":bmc:" ++ to_lowercase serial

unfoldable pub hw_canonical_key : HardwareIdentity → String
unfolding bmc_part to_lowercase
hw_canonical_key hw = "mac:" ++ to_lowercase hw.mac_address ++ bmc_part hw.bmc_serial
