-- ===== src/Agent/Supervisor.antt =====
-- crates/pact-agent/src/supervisor/pact_supervisor.rs: the processes of the declared services. The
-- operating system, tokio and the control groups of hpc_node are the record System over a world `W`,
-- in which time passes too: the pauses between the steps are not steps of the model.
pub mod Supervision
pub mod Services
pub mod Tracking
pub mod Rounds
pub mod Runs
pub mod Ordering
use mathlib.Core.Option
use mathlib.Core.List.{reverse}
use pact.Base.{
  ℕ, ◌+◌, ◌%◌, ◌^◌, ◌<◌, String, String_eq, Bool, true, false, not, ◌&&◌, Option, none, some, List,
  [], ◌∷◌, ◌==◌, leb, nat_eq, if◌then◌else◌,
}
use pact.Base.Map.{Map, lookup, insert}
use pact.Types.Service.{ServiceState, RestartPolicy, HealthCheckType, HealthCheck, ServiceDecl}
use pact.Agent.Memory.{parse_memory_value}

-- A child's handle by a number, a scope's handle by its path; an exit code is the bit pattern of an i32.
abbrev pub Child : Type 0
Child = ℕ

abbrev pub CgroupHandle : Type 0
CgroupHandle = String

pub record ProcessState : Type 0 where
  pub state : ServiceState
  pub pid : Option ℕ
  pub restarts : ℕ
  pub last_exit_code : Option ℕ
  pub child : Option Child
  pub cgroup_handle : Option CgroupHandle

pub record ResourceLimits : Type 0 where
  pub memory_max : Option ℕ
  pub cpu_weight : Option ℕ
  pub io_max : Option ℕ

-- How the wait for a child ends within the grace period.
pub data Waited : Type 0 where
  exited : Option ℕ → Waited
  wait_error grace_expired : Waited

pub record System (W : Type 0) : Type 0 where
  pub pact_infra : String
  pub create_scope : String → String → ResourceLimits → W → W × Option CgroupHandle
  pub destroy_scope : CgroupHandle → W → W
  pub spawn : ServiceDecl → W → W × Option Child
  pub child_id : Child → W → Option ℕ
  pub try_wait : Child → W → W × Option (Option ℕ)
  pub terminate : ℕ → W → W
  pub wait_for : ℕ → Child → W → W × Waited
  pub kill : Child → W → W
  pub emit_crash : String → Option ℕ → Bool → W → W
  pub http_get : String → W → W × Option ℕ
  pub tcp_connect : ℕ → W → W × Bool

pub record PactSupervisor : Type 0 where
  pub processes : Map String ProcessState
  pub service_decls : List ServiceDecl
  pub shutdown_grace_seconds : ℕ
  pub cgroup_manager : Bool

abbrev pub is_running : ServiceState → Bool
is_running ServiceState.running = true
is_running _ = false

-- `+= 1` on a `u32`, which wraps in a release build.
abbrev pub u32 : ℕ → ℕ
u32 n = n % 2 ^ 32

abbrev pub put : String → ProcessState → PactSupervisor → PactSupervisor
put name ps s = record s { processes = insert name ps s.processes }

abbrev pub resource_limits : ServiceDecl → ResourceLimits
resource_limits d = record {
  memory_max = Option.bind d.cgroup_memory_max parse_memory_value;
  cpu_weight = d.cgroup_cpu_weight;
  io_max = none;
}

unfoldable pub mark_restarting : ServiceDecl → PactSupervisor → PactSupervisor
mark_restarting d s = elim (lookup d.name s.processes) [
  | none ↦ s
  | some ps ↦
      put d.name (record ps { restarts = u32 (ps.restarts + 1); state = ServiceState.restarting }) s
]

module _ {W : Type 0} (sys : System W) where
  -- The service's new scope, if there is a manager and it makes one.
  unfoldable pub open_scope : Bool → ServiceDecl → W → W × Option CgroupHandle
  open_scope has_manager d w =
      if has_manager
      then sys.create_scope (Option.get_or d.cgroup_slice sys.pact_infra) d.name (resource_limits d)
          w
      else (w, none)

  -- The scope is destroyed, if there is a manager and a handle.
  unfoldable pub close_scope : Bool → Option CgroupHandle → W → W
  close_scope has_manager none w = w
  close_scope has_manager (some handle) w = if has_manager then sys.destroy_scope handle w else w

  unfoldable pub launched :
      ServiceDecl
      → ℕ
      → Option CgroupHandle
      → PactSupervisor
      → W × Option Child
      → PactSupervisor × W × Bool
  launched d prev_restarts handle s (w, none) = (s, close_scope s.cgroup_manager handle w, false)
  launched d prev_restarts handle s (w, some child) = (
    put d.name
        (record {
          state = ServiceState.running;
          pid = sys.child_id child w;
          restarts = prev_restarts;
          last_exit_code = none;
          child = some child;
          cgroup_handle = handle;
        })
        s,
    w,
    true,
  )

  unfoldable pub launch :
      ServiceDecl → ℕ → PactSupervisor → W × Option CgroupHandle → PactSupervisor × W × Bool
  launch d prev_restarts s (w, handle) = launched d prev_restarts handle s (sys.spawn d w)

  -- The last part is whether the result is `Ok`.
  unfoldable pub start : ServiceDecl → PactSupervisor → W → PactSupervisor × W × Bool
  start d s w = elim (lookup d.name s.processes) [
    | none ↦ launch d 0 s (open_scope s.cgroup_manager d w)
    | some ps ↦
        if is_running ps.state
        then (s, w, true)
        else launch d ps.restarts s (open_scope s.cgroup_manager d w)
  ]

  unfoldable pub awaited : Child → Option ℕ → W × Waited → W × Option ℕ
  awaited child last (w, Waited.exited code) = (w, code)
  awaited child last (w, Waited.wait_error) = (w, last)
  awaited child last (w, Waited.grace_expired) = (sys.kill child w, last)

  -- SIGTERM, the grace period, and SIGKILL after it, with the last exit code that is then known.
  unfoldable pub halt : ℕ → ProcessState → W → W × Option ℕ
  halt grace ps w = elim ps.child [
    | none ↦ (w, ps.last_exit_code)
    | some child ↦ awaited child ps.last_exit_code (
        sys.wait_for grace child
          (elim (sys.child_id child w) [ none ↦ w | some pid ↦ sys.terminate pid w ]))
  ]

  unfoldable pub halted :
      ServiceDecl → ProcessState → PactSupervisor → W × Option ℕ → PactSupervisor × W
  halted d ps s (w, code) = (
    put d.name
        (record {
          state = ServiceState.stopped;
          pid = none;
          restarts = ps.restarts;
          last_exit_code = code;
          child = none;
          cgroup_handle = none;
        })
        s,
    close_scope s.cgroup_manager ps.cgroup_handle w,
  )

  unfoldable pub stop : ServiceDecl → PactSupervisor → W → PactSupervisor × W
  stop d s w = elim (lookup d.name s.processes) [
    | none ↦ (s, w)
    | some ps ↦
        if is_running ps.state then halted d ps s (halt s.shutdown_grace_seconds ps w) else (s, w)
  ]

  unfoldable pub restart : ServiceDecl → PactSupervisor → W → PactSupervisor × W × Bool
  restart d s w = start d (mark_restarting d (stop d s w).0) (stop d s w).1
