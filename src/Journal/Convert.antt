-- ===== src/Journal/Convert.antt =====
-- crates/pact-journal/src/service.rs: between the messages of the wire and the journal's own types.
pub mod Roundtrip
use Prim.Native.String.{◌++◌}
use mathlib.Core.Option
use pact.Base.{
  ℕ, ◌^◌, ◌*◌, ◌/◌, ◌%◌, String, Bool, true, Option, none, some, List, map, ◌==◌, ◌||◌, String_eq,
  ℕ_eq, if◌then◌else◌,
}
use pact.Base.Text.{is_empty}
use pact.Base.Decimal.{to_string, parse_unsigned}
use pact.Types
use pact.Types.{
  DateTime, EntryType, Identity, PrincipalType, Scope, DeltaAction, DeltaItem, StateDelta,
  ConfigEntry,
}
use pact.Journal.Wire.{
  Timestamp, Duration, ScopeKind, ProtoScope, ProtoIdentity, MountSpec, MountDelta, FileDelta,
  NetworkDelta, ServiceDelta, KernelDelta, PackageDelta, GpuDelta, ProtoStateDelta,
  ProtoConfigEntry, Status, Reply, answer, error,
}

-- The match on the numbers of the enumeration.
unfoldable pub entry_type_of : ℕ → Option EntryType
entry_type_of n =
    if n == 1
    then some EntryType.commit
    else if n == 2
    then some EntryType.rollback
    else if n == 3
    then some EntryType.auto_converge
    else if n == 4
    then some EntryType.drift_detected
    else if n == 5
    then some EntryType.capability_change
    else if n == 6
    then some EntryType.policy_update
    else if n == 7
    then some EntryType.boot_config
    else if n == 8
    then some EntryType.emergency_start
    else if n == 9
    then some EntryType.emergency_end
    else if n == 10
    then some EntryType.exec_log
    else if n == 11
    then some EntryType.shell_session
    else if n == 12
    then some EntryType.service_lifecycle
    else if n == 13
    then some EntryType.pending_approval
    else none

unfoldable pub entry_type_code : EntryType → ℕ
entry_type_code EntryType.commit = 1
entry_type_code EntryType.rollback = 2
entry_type_code EntryType.auto_converge = 3
entry_type_code EntryType.drift_detected = 4
entry_type_code EntryType.capability_change = 5
entry_type_code EntryType.policy_update = 6
entry_type_code EntryType.boot_config = 7
entry_type_code EntryType.emergency_start = 8
entry_type_code EntryType.emergency_end = 9
entry_type_code EntryType.exec_log = 10
entry_type_code EntryType.shell_session = 11
entry_type_code EntryType.service_lifecycle = 12
entry_type_code EntryType.pending_approval = 13
entry_type_code EntryType.node_enrolled = 14
entry_type_code EntryType.node_activated = 15
entry_type_code EntryType.node_deactivated = 16
entry_type_code EntryType.node_decommissioned = 17
entry_type_code EntryType.node_assigned = 18
entry_type_code EntryType.node_unassigned = 19
entry_type_code EntryType.cert_signed = 20
entry_type_code EntryType.cert_revoked = 21

unfoldable pub domain_scope : ScopeKind → Scope
domain_scope (ScopeKind.node_id n) = Scope.node n
domain_scope (ScopeKind.vcluster_id v) = Scope.vcluster v
domain_scope (ScopeKind.global b) = Scope.global

-- `proto.scope.and_then(|s| s.scope)`.
abbrev pub inner_scope : Option ProtoScope → Option ScopeKind
inner_scope none = none
inner_scope (some s) = s.scope

unfoldable pub scope_of : Option ProtoScope → Scope
scope_of s = elim (inner_scope s) [ none ↦ Scope.global | some k ↦ domain_scope k ]

unfoldable pub scope_to_proto : Scope → Option ProtoScope
scope_to_proto Scope.global = some (record { scope = some (ScopeKind.global true) })
scope_to_proto (Scope.vcluster v) = some (record { scope = some (ScopeKind.vcluster_id v) })
scope_to_proto (Scope.node n) = some (record { scope = some (ScopeKind.node_id n) })

unfoldable pub principal_type_of : String → PrincipalType
principal_type_of s =
    if s == "agent" || s == "Agent"
    then PrincipalType.agent
    else if s == "service" || s == "Service"
    then PrincipalType.service
    else PrincipalType.human

unfoldable pub principal_type_name : PrincipalType → String
principal_type_name PrincipalType.human = "Human"
principal_type_name PrincipalType.agent = "Agent"
principal_type_name PrincipalType.service = "Service"

unfoldable pub proto_action : ℕ → DeltaAction
proto_action n =
    if n == 1 then DeltaAction.add else if n == 2 then DeltaAction.remove else DeltaAction.modify

unfoldable pub domain_action : DeltaAction → ℕ
domain_action DeltaAction.add = 1
domain_action DeltaAction.remove = 2
domain_action DeltaAction.modify = 3

-- `format!("{}:{} ({})", …)`.
unfoldable pub show_mount : MountSpec → String
show_mount m = m.fs_type ++ ":" ++ m.source ++ " (" ++ m.options ++ ")"

item : ℕ → String → Option String → Option String → DeltaItem
item action key value previous = record {
  action = proto_action action;
  key = key;
  value = value;
  previous = previous;
}

unfoldable pub proto_to_state_delta : ProtoStateDelta → StateDelta
unfolding item
proto_to_state_delta p = record {
  mounts =
      map
        (λ m.
          item m.action m.path (Option.map show_mount m.declared) (Option.map show_mount m.actual))
        p.mounts;
  files = map (λ f. item f.action f.path f.content_hash f.owner) p.files;
  network = map (λ n. item n.action n.interface n.detail none) p.network;
  services = map (λ s. item s.action s.name s.declared_state s.actual_state) p.services;
  kernel = map (λ k. item k.action k.key k.declared_value k.actual_value) p.kernel;
  packages = map (λ q. item q.action q.name q.version none) p.packages;
  gpu = map (λ g. item g.action (to_string g.gpu_index) g.detail none) p.gpu;
}

-- `key.parse().unwrap_or(0)` at `u32`.
unfoldable pub gpu_index_of : String → ℕ
gpu_index_of key = Option.get_or (parse_unsigned (2 ^ 32) key) 0

unfoldable pub state_delta_to_proto : StateDelta → ProtoStateDelta
state_delta_to_proto d = record {
  mounts =
      map
        (λ m. record {
          path = m.key;
          action = domain_action m.action;
          declared = none;
          actual = none;
        })
        d.mounts;
  files =
      map
        (λ f. record {
          path = f.key;
          action = domain_action f.action;
          content_hash = f.value;
          mode = none;
          owner = f.previous;
        })
        d.files;
  network =
      map (λ n. record { interface = n.key; action = domain_action n.action; detail = n.value })
        d.network;
  services =
      map
        (λ s. record {
          name = s.key;
          action = domain_action s.action;
          declared_state = s.value;
          actual_state = s.previous;
        })
        d.services;
  kernel =
      map
        (λ k. record {
          key = k.key;
          action = domain_action k.action;
          declared_value = k.value;
          actual_value = k.previous;
        })
        d.kernel;
  packages =
      map (λ p. record { name = p.key; action = domain_action p.action; version = p.value })
        d.packages;
  gpu =
      map
        (λ g. record {
          gpu_index = gpu_index_of g.key;
          action = domain_action g.action;
          detail = g.value;
        })
        d.gpu;
}

-- `now` is what `Utc::now()` returns: the server sets the time stamp. `as u32` keeps the low bits.
unfoldable pub proto_to_config_entry : DateTime → ProtoConfigEntry → Reply ConfigEntry
proto_to_config_entry now p = elim p.author [
  | none ↦ error (Status.invalid_argument "author required")
  | some author ↦ elim (entry_type_of p.entry_type) [
    | none ↦ error (Status.invalid_argument "unknown entry type")
    | some entry_type ↦ answer (record {
      sequence = p.sequence;
      timestamp = now;
      entry_type = entry_type;
      scope = scope_of p.scope;
      author = record {
        principal = author.principal;
        principal_type = principal_type_of author.principal_type;
        role = author.role;
      };
      parent = p.parent;
      state_delta = Option.map proto_to_state_delta p.state_delta;
      policy_ref = if is_empty p.policy_ref then none else some p.policy_ref;
      ttl_seconds = Option.map (λ (d : Duration). d.seconds % 2 ^ 32) p.ttl;
      emergency_reason = p.emergency_reason;
    })
  ]
]

unfoldable pub proto_timestamp : DateTime → Timestamp
proto_timestamp t = record { seconds = t / Types.seconds 1; nanos = t % Types.seconds 1 }

unfoldable pub config_entry_to_proto : ConfigEntry → ProtoConfigEntry
config_entry_to_proto e = record {
  sequence = e.sequence;
  timestamp = some (proto_timestamp e.timestamp);
  entry_type = entry_type_code e.entry_type;
  scope = scope_to_proto e.scope;
  author = some (record {
    principal = e.author.principal;
    principal_type = principal_type_name e.author.principal_type;
    role = e.author.role;
  });
  parent = e.parent;
  state_delta = Option.map state_delta_to_proto e.state_delta;
  policy_ref = Option.get_or e.policy_ref "";
  ttl = Option.map (λ (s : ℕ). record { seconds = s; nanos = 0 }) e.ttl_seconds;
  emergency_reason = e.emergency_reason;
}
