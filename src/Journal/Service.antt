-- ===== src/Journal/Service.antt =====
-- crates/pact-journal/src/service.rs: the calls of ConfigService. A write returns the journal's new
-- state, the reply and the update that subscribers are notified of.
pub mod Reading
use Prim.Native.String.{◌++◌}
use mathlib.Core.Option
use pact.Base.{
  ℕ, ◌-◌, ◌^◌, String, Bool, true, false, ◌&&◌, Option, none, some, List, map, ◌==◌, ℕ_eq,
  String_eq, HasEq, ltb, leb, select, take, if◌then◌else◌,
}
use pact.Base.Map.{Map, lookup}
use pact.Base.Decimal.{to_string}
use pact.Types.{NodeId, VClusterId, EntrySeq, DateTime, Scope, ConfigEntry, ConfigState}
use pact.Journal.Command.{JournalCommand, JournalResponse}
use pact.Journal.State.{JournalState, Library}
use pact.Journal.Raft.{Raft, WriteResult, Written}
use pact.Journal.Wire.{
  Timestamp, ScopeKind, ProtoScope, ProtoConfigEntry, ListEntriesRequest, OverlayResponse, Status,
  Reply, answer, error,
}
use pact.Journal.Convert.{
  inner_scope, domain_scope, proto_timestamp, proto_to_config_entry, config_entry_to_proto,
}

-- The update of a change; `vcluster_change` holds the bytes of the entry's JSON.
pub record ConfigUpdate : Type 0 where
  pub sequence : EntrySeq
  pub timestamp : Timestamp
  pub vcluster_change : List ℕ

abbrev pub Appended : Type 0
Appended = JournalState × Reply EntrySeq × Option ConfigUpdate

-- The update of an entry that was written, when it is found.
unfoldable pub entry_update :
    (ConfigEntry → List ℕ) → EntrySeq → Option ConfigEntry → Option ConfigUpdate
entry_update to_vec sequence found =
    Option.map
      (λ (e : ConfigEntry). record {
        sequence = sequence;
        timestamp = proto_timestamp e.timestamp;
        vcluster_change = to_vec e;
      })
      found

unfoldable pub append_response : (ConfigEntry → List ℕ) → Written → Appended
append_response to_vec (s, WriteResult.failed text) =
    (s, error (Status.internal ("Raft write failed: " ++ text)), none)
append_response to_vec (s, WriteResult.response (JournalResponse.entry_appended sequence)) =
    (s, answer sequence, entry_update to_vec sequence (lookup sequence s.entries))
append_response to_vec (s, WriteResult.response (JournalResponse.validation_error reason)) =
    (s, error (Status.failed_precondition reason), none)
append_response to_vec (s, WriteResult.response JournalResponse.ok) =
    (s, error (Status.internal "unexpected response for AppendEntry"), none)
append_response to_vec (s, WriteResult.response (JournalResponse.enrollment_result n t v)) =
    (s, error (Status.internal "unexpected response for AppendEntry"), none)

-- `to_vec` is serde_json's; `now` is the clock at the conversion, `later` while Raft applies.
unfoldable pub append_entry :
    {lib : Library}
    → Raft lib
    → (ConfigEntry → List ℕ)
    → DateTime
    → DateTime
    → Option ProtoConfigEntry
    → JournalState
    → Appended
append_entry raft to_vec now later none s =
    (s, error (Status.invalid_argument "entry required"), none)
append_entry raft to_vec now later (some p) s = elim (proto_to_config_entry now p) [
  | error status ↦ (s, error status, none)
  | answer entry ↦
      append_response to_vec (raft.client_write later (JournalCommand.append_entry entry) s)
]

unfoldable pub get_entry : EntrySeq → JournalState → Reply ProtoConfigEntry
get_entry seq s = elim (lookup seq s.entries) [
  | none ↦ error (Status.not_found ("entry " ++ to_string seq ++ " not found"))
  | some entry ↦ answer (config_entry_to_proto entry)
]

-- The derived `Debug` of the enumeration.
unfoldable pub config_state_name : ConfigState → String
config_state_name ConfigState.observe_only = "ObserveOnly"
config_state_name ConfigState.committed = "Committed"
config_state_name ConfigState.drifted = "Drifted"
config_state_name ConfigState.converging = "Converging"
config_state_name ConfigState.emergency = "Emergency"

-- The reply's node and state.
unfoldable pub get_node_state : NodeId → JournalState → Reply (NodeId × String)
get_node_state node_id s = elim (lookup node_id s.node_states) [
  | none ↦ error (Status.not_found ("node " ++ node_id ++ " not found"))
  | some state ↦ answer (node_id, config_state_name state)
]

-- `Scope`'s derived equality.
unfoldable pub same_scope : Scope → Scope → Bool
same_scope Scope.global Scope.global = true
same_scope (Scope.vcluster v) (Scope.vcluster w) = v == w
same_scope (Scope.node n) (Scope.node m) = n == m
same_scope _ _ = false

-- `is_none_or`.
abbrev pub in_scope : Option ScopeKind → ConfigEntry → Bool
in_scope none e = true
in_scope (some k) e = same_scope e.scope (domain_scope k)

-- `range(from..=to)` in the order of the keys.
abbrev pub range : EntrySeq → EntrySeq → Map EntrySeq ConfigEntry → Map EntrySeq ConfigEntry
range from to entries = select (λ b. leb from b.0 && leb b.0 to) entries

-- The messages of the stream; `none` where `range` panics on bounds in the wrong order.
unfoldable pub list_entries : ListEntriesRequest → JournalState → Option (List ProtoConfigEntry)
list_entries req s =
    let from : ℕ = Option.get_or req.from_sequence 0 in
    let to : ℕ = Option.get_or req.to_sequence (2 ^ 64 - 1) in
    let limit : ℕ = Option.get_or req.limit (2 ^ 32 - 1) in
    if ltb to from
    then none
    else some (
        map (λ b. config_entry_to_proto b.1)
          (take limit
            (select (λ b. in_scope (inner_scope req.scope) b.1) (range from to s.entries))))

unfoldable pub get_overlay : VClusterId → JournalState → Reply OverlayResponse
get_overlay vcluster_id s = elim (lookup vcluster_id s.overlays) [
  | none ↦ error (Status.not_found ("overlay for " ++ vcluster_id ++ " not found"))
  | some overlay ↦ answer (record {
    vcluster_id = vcluster_id;
    version = overlay.version;
    bytes = overlay.bytes;
    checksum = overlay.checksum;
  })
]
