-- ===== src/Journal/Enrollment/Listing.antt =====
-- crates/pact-journal/src/enrollment_service.rs: the queries of EnrollmentService, and what they show
-- to a caller with the role of a vCluster.
use Prim.Native.String.{◌++◌}
use mathlib.Core.Option
use pact.Base.{
  ℕ, String, String_eq, Bool, true, false, not, ◌&&◌, ◌||◌, List, ◌==◌, Option, none, some, map,
  select, drop, if◌then◌else◌,
}
use pact.Base.Map.{lookup}
use pact.Base.Text.{is_empty, starts_with, to_lowercase}
use pact.Base.Parts.{split, join}
use pact.Types.{NodeId, VClusterId, DateTime, NodeEnrollment}
use pact.Journal.State.{JournalState, Library}
use pact.Journal.Wire.{Status, Reply, answer, error}
use pact.Journal.Enrollment.{
  Header, ProtoHardware, EnrollmentService, admin_role, state_name, caller,
}

pub record ListNodesRequest : Type 0 where
  pub state_filter : String
  pub vcluster_filter : String
  pub unassigned_only : Bool

pub record NodeSummary : Type 0 where
  pub node_id : NodeId
  pub enrollment_state : String
  pub vcluster_id : VClusterId
  pub last_seen : String
  pub mac_address : String

-- `role.split('-').skip(2)`, joined again; the dash is number 45.
unfoldable pub after_two_dashes : String → String
after_two_dashes role = join "-" (drop 2 (split 45 role))

unfoldable pub is_scoped : String → Bool
is_scoped role = starts_with "pact-ops-" role || starts_with "pact-viewer-" role

unfoldable pub allowed_vcluster : String → Option VClusterId
allowed_vcluster role =
    if role == admin_role
    then none
    else if is_scoped role
    then some (after_two_dashes role)
    else none

-- `e.vcluster_id.as_deref() == Some(v)`.
abbrev pub is_in : VClusterId → NodeEnrollment → Bool
is_in v e = elim e.vcluster_id [ none ↦ false | some w ↦ w == v ]

abbrev pub is_assigned : NodeEnrollment → Bool
is_assigned e = elim e.vcluster_id [ none ↦ false | some w ↦ true ]

abbrev pub within : Option VClusterId → NodeEnrollment → Bool
within none e = true
within (some v) e = is_in v e

unfoldable pub passes_filters : ListNodesRequest → NodeEnrollment → Bool
passes_filters req e =
    (is_empty req.state_filter
      || to_lowercase (state_name e.state) == to_lowercase req.state_filter)
    && (is_empty req.vcluster_filter || is_in req.vcluster_filter e)
    && not (req.unassigned_only && is_assigned e)

unfoldable pub is_listed : Option VClusterId → ListNodesRequest → NodeEnrollment → Bool
is_listed allowed req e = within allowed e && passes_filters req e

unfoldable pub show_time : (DateTime → String) → Option DateTime → String
show_time to_rfc3339 t = Option.get_or (Option.map to_rfc3339 t) ""

unfoldable pub summary : (DateTime → String) → NodeEnrollment → NodeSummary
summary to_rfc3339 e = record {
  node_id = e.node_id;
  enrollment_state = state_name e.state;
  vcluster_id = Option.get_or e.vcluster_id "";
  last_seen = show_time to_rfc3339 e.last_seen;
  mac_address = e.hardware_identity.mac_address;
}

pub record InspectNodeResponse : Type 0 where
  pub node_id : NodeId
  pub domain_id : String
  pub enrollment_state : String
  pub hardware_identity : ProtoHardware
  pub vcluster_id : VClusterId
  pub cert_serial : String
  pub cert_expires_at : String
  pub last_seen : String
  pub enrolled_at : String
  pub enrolled_by : String
  pub active_sessions : ℕ

unfoldable pub inspection : (DateTime → String) → NodeEnrollment → InspectNodeResponse
inspection to_rfc3339 e = record {
  node_id = e.node_id;
  domain_id = e.domain_id;
  enrollment_state = state_name e.state;
  hardware_identity = record {
    mac_address = e.hardware_identity.mac_address;
    bmc_serial = Option.get_or e.hardware_identity.bmc_serial "";
    extra = e.hardware_identity.extra;
  };
  vcluster_id = Option.get_or e.vcluster_id "";
  cert_serial = Option.get_or e.cert_serial "";
  cert_expires_at = show_time to_rfc3339 e.cert_expires_at;
  last_seen = show_time to_rfc3339 e.last_seen;
  enrolled_at = to_rfc3339 e.enrolled_at;
  enrolled_by = e.enrolled_by.principal;
  active_sessions = e.active_sessions;
}

-- `role != "pact-platform-admin" && (…)`, and the test of the node's vCluster.
unfoldable pub is_hidden : String → NodeEnrollment → Bool
is_hidden role e =
    not (role == admin_role) && is_scoped role && not (is_in (after_two_dashes role) e)

module _ {lib : Library} (svc : EnrollmentService lib) where
  unfoldable pub nodes_for : String → ListNodesRequest → JournalState → List NodeSummary
  nodes_for role req s =
      map (λ b. summary svc.rcgen.to_rfc3339 b.1)
        (select (λ b. is_listed (allowed_vcluster role) req b.1) s.enrollments)

  unfoldable pub list_nodes : Header → ListNodesRequest → JournalState → Reply (List NodeSummary)
  list_nodes header req s = elim (caller svc header) [
    | error status ↦ error status
    | answer id ↦ answer (nodes_for id.role req s)
  ]

  unfoldable pub inspect_found : String → NodeId → Option NodeEnrollment → Reply InspectNodeResponse
  inspect_found role node_id none = error (Status.not_found ("node " ++ node_id ++ " not found"))
  inspect_found role node_id (some e) =
      if is_hidden role e
      then error (Status.permission_denied "PERMISSION_DENIED: node not in your vCluster")
      else answer (inspection svc.rcgen.to_rfc3339 e)

  unfoldable pub inspect_node : Header → NodeId → JournalState → Reply InspectNodeResponse
  inspect_node header node_id s = elim (caller svc header) [
    | error status ↦ error status
    | answer id ↦ inspect_found id.role node_id (lookup node_id s.enrollments)
  ]
