-- ===== src/Agent/Supervisor/Supervision.antt =====
-- crates/pact-agent/src/supervisor/pact_supervisor.rs: one round of the supervision loop, which looks
-- for processes that ended and restarts them by their policy.
use pact.Base.{
  ℕ, ◌+◌, String, String_eq, Bool, true, false, not, Option, none, some, List, [], ◌∷◌, ◌==◌,
  nat_eq, if◌then◌else◌,
}
use pact.Base.Map.{Map, lookup}
use pact.Types.Service.{ServiceState, RestartPolicy, ServiceDecl}
use pact.Agent.Supervisor.{
  Child, CgroupHandle, ProcessState, System, PactSupervisor, is_running, u32, put, open_scope,
  close_scope,
}

abbrev pub Crash : Type 0
Crash = String × Option ℕ

unfoldable pub should_restart : RestartPolicy → Option ℕ → Bool
should_restart RestartPolicy.always code = true
should_restart RestartPolicy.on_failure none = true
should_restart RestartPolicy.on_failure (some code) = not (nat_eq code 0)
should_restart RestartPolicy.never code = false

-- `decls.iter().find(|d| &d.name == name)`.
unfoldable pub find_decl : String → List ServiceDecl → Option ServiceDecl
find_decl name [] = none
find_decl name (d ∷ ds) = if d.name == name then some d else find_decl name ds

-- A process that was found to have ended.
unfoldable pub ended : Option ℕ → ProcessState → ProcessState
ended code ps = record {
  state = ServiceState.failed;
  pid = none;
  restarts = u32 (ps.restarts + 1);
  last_exit_code = code;
  child = none;
  cgroup_handle = ps.cgroup_handle;
}

unfoldable pub noted :
    String
    → ProcessState
    → Option (Option ℕ)
    → Map String ProcessState × List Crash
    → Map String ProcessState × List Crash
noted name ps none (m, crashes) = ((name, ps) ∷ m, crashes)
noted name ps (some code) (m, crashes) = ((name, ended code ps) ∷ m, (name, code) ∷ crashes)

-- A service that is never restarted is marked as stopped; one that ended well under `on_failure`
-- keeps its mark as failed.
unfoldable pub mark_stopped : RestartPolicy → String → PactSupervisor → PactSupervisor
mark_stopped RestartPolicy.never name s = elim (lookup name s.processes) [
  | none ↦ s
  | some ps ↦ put name (record ps { state = ServiceState.stopped }) s
]
mark_stopped _ name s = s

module _ {W : Type 0} (sys : System W) where
  -- `try_wait` on the child, if there is one and the process counts as running.
  unfoldable pub poll : ProcessState → W → W × Option (Option ℕ)
  poll ps w =
      if is_running ps.state
      then elim ps.child [ none ↦ (w, none) | some child ↦ sys.try_wait child w ]
      else (w, none)

  unfoldable pub detect : Map String ProcessState → W → W × (Map String ProcessState × List Crash)
  detect [] w = (w, ([], []))
  detect ((name, ps) ∷ m) w =
      let rest = detect m (poll ps w).0 in (rest.0, noted name ps (poll ps w).1 rest.1)

  -- The table and the crashes found in it.
  unfoldable pub detect_crashed_services : PactSupervisor → W → PactSupervisor × W × List Crash
  detect_crashed_services s w = (
    record s { processes = (detect s.processes w).1.0 },
    (detect s.processes w).0,
    (detect s.processes w).1.1,
  )

  -- The old scope goes, and its handle with it.
  unfoldable pub drop_old_scope : String → PactSupervisor → W → PactSupervisor × W
  drop_old_scope name s w = elim (lookup name s.processes) [
    | none ↦ (s, w)
    | some ps ↦ (
      put name (record ps { cgroup_handle = none }) s,
      close_scope sys s.cgroup_manager ps.cgroup_handle w,
    )
  ]

  unfoldable pub revived :
      ServiceDecl
      → Option CgroupHandle
      → PactSupervisor
      → W × Option Child
      → PactSupervisor × W × Bool
  revived d handle s (w, none) = (s, w, false)
  revived d handle s (w, some child) = elim (lookup d.name s.processes) [
    | some ps ↦ (
      put d.name
          (record ps {
            state = ServiceState.running;
            pid = sys.child_id child w;
            child = some child;
            cgroup_handle = handle;
          })
          s,
      w,
      true,
    )
    | none ↦ (
      put d.name
          (record {
            state = ServiceState.running;
            pid = sys.child_id child w;
            restarts = 1;
            last_exit_code = none;
            child = some child;
            cgroup_handle = handle;
          })
          s,
      w,
      true,
    )
  ]

  unfoldable pub respawn :
      ServiceDecl → PactSupervisor → W × Option CgroupHandle → PactSupervisor × W × Bool
  respawn d s (w, handle) = revived d handle s (sys.spawn d w)

  -- The last part is whether the result is `Ok`.
  unfoldable pub do_restart : ServiceDecl → PactSupervisor → W → PactSupervisor × W × Bool
  do_restart d s w =
      respawn d (drop_old_scope d.name s w).0
        (open_scope sys s.cgroup_manager d (drop_old_scope d.name s w).1)

  unfoldable pub handle_declared : ServiceDecl → Crash → PactSupervisor → W → PactSupervisor × W
  handle_declared d (name, code) s w =
      let after = sys.emit_crash name code (should_restart d.restart code) w in
      if should_restart d.restart code
      then ((do_restart d s after).0, (do_restart d s after).1)
      else (mark_stopped d.restart name s, after)

  unfoldable pub handle_crash : Crash → PactSupervisor → W → PactSupervisor × W
  handle_crash crash s w = elim (find_decl crash.0 s.service_decls) [
    | none ↦ (s, w)
    | some d ↦ handle_declared d crash s w
  ]

  unfoldable pub handle_crashes : List Crash → PactSupervisor × W → PactSupervisor × W
  handle_crashes [] sw = sw
  handle_crashes (crash ∷ crashes) (s, w) = handle_crashes crashes (handle_crash crash s w)

  unfoldable pub supervise : PactSupervisor → W → PactSupervisor × W
  supervise s w =
      handle_crashes (detect_crashed_services s w).2
        ((detect_crashed_services s w).0, (detect_crashed_services s w).1)
