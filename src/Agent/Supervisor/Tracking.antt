-- ===== src/Agent/Supervisor/Tracking.antt =====
-- crates/pact-agent/src/supervisor/pact_supervisor.rs: a process counts as running exactly while its
-- child is held.
use pact.Base.{
  ℕ, ◌≡◌, refl, ◌⊎◌, inl, inr, String, String_eq, true, false, Option, none, some, List, [], ◌∷◌,
  arith, Bool-cases, Option-cases,
}
use pact.Base.Map.{Each, Each-insert, lookup, lookup-insert_self}
use pact.Base.Bindings.{IsDistinct, insert-IsDistinct}
use pact.Types.Service.{ServiceState, ServiceDecl}
use pact.Agent.Supervisor.{
  Child, CgroupHandle, ProcessState, System, PactSupervisor, is_running, put, launched, launch,
  start, halted, stop, mark_restarting, restart,
}
use pact.Agent.Supervisor.Services.{start_each, stop_each, status, reaped}
use pact.Agent.Supervisor.Supervision.{poll}

-- Running with a child, or not running, with neither a child nor a process id.
abbrev pub IsTracked : ProcessState → Type 0
IsTracked ps =
    ((is_running ps.state ≡ true) × ((c : Child) × (ps.child ≡ some c)))
    ⊎ ((is_running ps.state ≡ false) × (ps.child ≡ none) × (ps.pid ≡ none))

-- Every process is tracked, and none stands in the table twice.
abbrev pub IsSupervised : PactSupervisor → Type 0
IsSupervised s = Each (λ n ps. IsTracked ps) s.processes × IsDistinct s.processes

-- The service is not running.
abbrev pub IsDown : String → PactSupervisor → Type 0
IsDown name s =
    (ps : ProcessState) → lookup name s.processes ≡ some ps → is_running ps.state ≡ false

pub put-IsSupervised :
    (name : String) (ps : ProcessState) (s : PactSupervisor)
    → IsSupervised s
    → IsTracked ps
    → IsSupervised (put name ps s)
put-IsSupervised name ps s h t = (
  Each-insert (λ n p. IsTracked p) name ps s.processes h.0 t,
  insert-IsDistinct name ps s.processes h.1,
)

module _ {W : Type 0} (sys : System W) where
  launched-IsSupervised :
      (d : ServiceDecl) (k : ℕ) (h : Option CgroupHandle) (s : PactSupervisor)
      (r : W × Option Child)
      → IsSupervised s
      → IsSupervised (launched sys d k h s r).0
  unfolding launched
  launched-IsSupervised d k h s (w, none) i = i
  launched-IsSupervised d k h s (w, some c) i =
      put-IsSupervised d.name _ s i (inl (refl, (c, refl)))

  launch-IsSupervised :
      (d : ServiceDecl) (k : ℕ) (s : PactSupervisor) (r : W × Option CgroupHandle)
      → IsSupervised s
      → IsSupervised (launch sys d k s r).0
  unfolding launch
  launch-IsSupervised d k s (w, h) i = launched-IsSupervised d k h s (sys.spawn d w) i

  pub start-IsSupervised :
      (d : ServiceDecl) (s : PactSupervisor) (w : W)
      → IsSupervised s
      → IsSupervised (start sys d s w).0
  unfolding start
  start-IsSupervised d s w i = elim (Option-cases (lookup d.name s.processes)) [
    | inl e ↦ rw (e, start) (launch-IsSupervised d 0 s _ i)
    | inr (ps, e) ↦ elim (Bool-cases (is_running ps.state)) [
      | inl p ↦ rw (e, start) (rw p i)
      | inr p ↦ rw (e, start) (rw p (launch-IsSupervised d ps.restarts s _ i))
    ]
  ]

  halted-IsSupervised :
      (d : ServiceDecl) (ps : ProcessState) (s : PactSupervisor) (r : W × Option ℕ)
      → IsSupervised s
      → IsSupervised (halted sys d ps s r).0 × IsDown d.name (halted sys d ps s r).0
  unfolding halted
  halted-IsSupervised d ps s (w, code) i = (
    put-IsSupervised d.name _ s i (inr (refl, refl, refl)),
    λ p found. ground (arith, lookup-insert_self d.name (stopped_one code) s.processes),
  )
    where
      stopped_one : Option ℕ → ProcessState
      stopped_one c = record {
        state = ServiceState.stopped;
        pid = none;
        restarts = ps.restarts;
        last_exit_code = c;
        child = none;
        cgroup_handle = none;
      }

  -- A service that was stopped is not running.
  pub stop-IsSupervised :
      (d : ServiceDecl) (s : PactSupervisor) (w : W)
      → IsSupervised s
      → IsSupervised (stop sys d s w).0 × IsDown d.name (stop sys d s w).0
  unfolding stop
  stop-IsSupervised d s w i = elim (Option-cases (lookup d.name s.processes)) [
    | inl e ↦ rw (e, stop) (i, λ p found. cc (e, found))
    | inr (ps, e) ↦ elim (Bool-cases (is_running ps.state)) [
      | inl p ↦ rw (e, stop) (rw p (halted-IsSupervised d ps s _ i))
      | inr p ↦ rw (e, stop) (rw p (i, λ q found. cc (e, found, p)))
    ]
  ]

  pub restart-IsSupervised :
      (d : ServiceDecl) (s : PactSupervisor) (w : W)
      → IsSupervised s
      → IsSupervised (restart sys d s w).0
  unfolding restart mark_restarting
  restart-IsSupervised d s w i =
      let (kept, down) = stop-IsSupervised d s w i in
      start-IsSupervised d _ _ (marked (stop sys d s w).0 kept down)
    where
      marked :
          (t : PactSupervisor)
          → IsSupervised t
          → IsDown d.name t
          → IsSupervised (mark_restarting d t)
      marked t kept down = elim (Option-cases (lookup d.name t.processes)) [
        | inl e ↦ rw (e, mark_restarting) kept
        | inr (ps, e) ↦
            rw (e, mark_restarting)
              (put-IsSupervised d.name _ t kept (elim (kept.0 d.name ps e) [
                | inl (r, _) ↦ cc (r, down ps e)
                | inr (_, c, p) ↦ inr (refl, c, p)
              ]))
      ]

  pub start_each-IsSupervised :
      (ds : List ServiceDecl) (s : PactSupervisor) (w : W)
      → IsSupervised s
      → IsSupervised (start_each sys ds s w).0
  unfolding start_each
  start_each-IsSupervised [] s w i = i
  start_each-IsSupervised (d ∷ ds) s w i =
      let t = start sys d s w in
      elim (Bool-cases t.2) [
        | inl p ↦ rw p (start_each-IsSupervised ds t.0 t.1 (start-IsSupervised d s w i))
        | inr p ↦ rw p (start-IsSupervised d s w i)
      ]

  pub stop_each-IsSupervised :
      (ds : List ServiceDecl) (s : PactSupervisor) (w : W)
      → IsSupervised s
      → IsSupervised (stop_each sys ds s w).0
  unfolding stop_each
  stop_each-IsSupervised [] s w i = i
  stop_each-IsSupervised (d ∷ ds) s w i =
      stop_each-IsSupervised ds (stop sys d s w).0 (stop sys d s w).1 (stop-IsSupervised d s w i).0

  poll-reaped : (ps : ProcessState) (r : Option (Option ℕ)) → IsTracked ps → IsTracked (reaped r ps)
  unfolding reaped
  poll-reaped ps none t = t
  poll-reaped ps (some code) t = inr (refl, refl, refl)

  pub status-IsSupervised :
      (d : ServiceDecl) (s : PactSupervisor) (w : W)
      → IsSupervised s
      → IsSupervised (status sys d s w).0
  unfolding status
  status-IsSupervised d s w i = elim (Option-cases (lookup d.name s.processes)) [
    | inl e ↦ rw (e, status) i
    | inr (ps, e) ↦
        rw (e, status)
          (put-IsSupervised d.name _ s i (poll-reaped ps (poll sys ps w).1 (i.0 d.name ps e)))
  ]
