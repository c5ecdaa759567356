-- ===== src/Agent/Supervisor/Services.antt =====
-- crates/pact-agent/src/supervisor/pact_supervisor.rs: all services in their order, and the status and
-- health of one.
use mathlib.Core.List.{reverse}
use pact.Base.{
  ℕ, String, String_eq, Bool, true, false, ◌&&◌, Option, none, some, List, [], ◌∷◌, leb,
  if◌then◌else◌,
}
use pact.Base.Map.{lookup}
use pact.Types.Service.{ServiceState, HealthCheckType, HealthCheck, ServiceDecl}
use pact.Agent.Supervisor.{ProcessState, System, PactSupervisor, is_running, put, start, stop}
use pact.Agent.Supervisor.Supervision.{poll}

-- `sort_by_key(|s| s.order)`, which is stable.
unfoldable pub insert_by_order : ServiceDecl → List ServiceDecl → List ServiceDecl
insert_by_order d [] = d ∷ []
insert_by_order d (x ∷ xs) =
    let rest = insert_by_order d xs in if leb d.order x.order then d ∷ x ∷ xs else x ∷ rest

unfoldable pub sorted_services : List ServiceDecl → List ServiceDecl
sorted_services [] = []
sorted_services (d ∷ ds) = insert_by_order d (sorted_services ds)

pub record ServiceStatus : Type 0 where
  pub name : String
  pub state : ServiceState
  pub pid : Option ℕ
  pub restarts : ℕ
  pub last_exit_code : Option ℕ

abbrev pub status_of : String → ProcessState → ServiceStatus
status_of name ps = record {
  name = name;
  state = ps.state;
  pid = ps.pid;
  restarts = ps.restarts;
  last_exit_code = ps.last_exit_code;
}

-- A process that `status` finds to have ended: its restarts are not counted.
unfoldable pub reaped : Option (Option ℕ) → ProcessState → ProcessState
reaped none ps = ps
reaped (some code) ps = record ps {
  last_exit_code = code;
  child = none;
  pid = none;
  state = ServiceState.failed;
}

pub data HealthDetail : Type 0 where
  service_is : ServiceState → HealthDetail
  process_alive http_check_failed : HealthDetail
  http_status tcp_port_open tcp_port_closed : ℕ → HealthDetail

-- Whether the service is healthy, and the detail.
abbrev pub HealthCheckResult : Type 0
HealthCheckResult = Bool × HealthDetail

unfoldable pub http_result : Option ℕ → HealthCheckResult
http_result none = (false, HealthDetail.http_check_failed)
http_result (some code) = (leb 200 code && leb code 299, HealthDetail.http_status code)

unfoldable pub tcp_result : ℕ → Bool → HealthCheckResult
tcp_result port true = (true, HealthDetail.tcp_port_open port)
tcp_result port false = (false, HealthDetail.tcp_port_closed port)

module _ {W : Type 0} (sys : System W) where
  -- `start(service).await?` for each: the first error ends the loop.
  unfoldable pub start_each : List ServiceDecl → PactSupervisor → W → PactSupervisor × W × Bool
  start_each [] s w = (s, w, true)
  start_each (d ∷ ds) s w =
      let rest = start_each ds (start sys d s w).0 (start sys d s w).1 in
      if (start sys d s w).2 then rest else start sys d s w

  unfoldable pub start_all : List ServiceDecl → PactSupervisor → W → PactSupervisor × W × Bool
  start_all services s w =
      start_each (sorted_services services) (record s { service_decls = services }) w

  unfoldable pub stop_each : List ServiceDecl → PactSupervisor → W → PactSupervisor × W
  stop_each [] s w = (s, w)
  stop_each (d ∷ ds) s w = stop_each ds (stop sys d s w).0 (stop sys d s w).1

  unfoldable pub stop_all : List ServiceDecl → PactSupervisor → W → PactSupervisor × W
  stop_all services s w = stop_each (reverse (sorted_services services)) s w

  unfoldable pub status : ServiceDecl → PactSupervisor → W → PactSupervisor × W × ServiceStatus
  status d s w = elim (lookup d.name s.processes) [
    | none ↦ (
      s,
      w,
      record {
        name = d.name;
        state = ServiceState.stopped;
        pid = none;
        restarts = 0;
        last_exit_code = none;
      },
    )
    | some ps ↦ (
      put d.name (reaped (poll sys ps w).1 ps) s,
      (poll sys ps w).0,
      status_of d.name (reaped (poll sys ps w).1 ps),
    )
  ]

  unfoldable pub probe : Option HealthCheck → W → W × HealthCheckResult
  probe none w = (w, (true, HealthDetail.process_alive))
  probe (some h) w = elim h.check_type [
    | HealthCheckType.process ↦ (w, (true, HealthDetail.process_alive))
    | HealthCheckType.http url ↦ ((sys.http_get url w).0, http_result (sys.http_get url w).1)
    | HealthCheckType.tcp port ↦
        ((sys.tcp_connect port w).0, tcp_result port (sys.tcp_connect port w).1)
  ]

  unfoldable pub health : ServiceDecl → PactSupervisor → W → PactSupervisor × W × HealthCheckResult
  health d s w =
      let r = status d s w in
      if is_running r.2.state
      then (r.0, (probe d.health_check r.1).0, (probe d.health_check r.1).1)
      else (r.0, r.1, (false, HealthDetail.service_is r.2.state))
