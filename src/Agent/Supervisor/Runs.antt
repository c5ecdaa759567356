-- ===== src/Agent/Supervisor/Runs.antt =====
-- crates/pact-agent/src/supervisor/pact_supervisor.rs: the calls of a supervisor in any order, and the
-- rounds of its loop between them, each of which holds the table to its end.
use mathlib.Core.List.{reverse}
use pact.Base.{List, [], ◌∷◌, Bool-cases, inl, inr}
use pact.Types.Service.{ServiceDecl}
use pact.Agent.Supervisor.{System, PactSupervisor, start, stop, restart, is_running}
use pact.Agent.Supervisor.Services.{start_all, stop_all, sorted_services, status, health}
use pact.Agent.Supervisor.Supervision.{supervise}
use pact.Agent.Supervisor.Tracking.{
  IsSupervised, start-IsSupervised, stop-IsSupervised, restart-IsSupervised, status-IsSupervised,
  start_each-IsSupervised, stop_each-IsSupervised,
}
use pact.Agent.Supervisor.Rounds.{supervise-IsSupervised}

pub data Call : Type 0 where
  start_one stop_one restart_one status_of health_of : ServiceDecl → Call
  start_these stop_these : List ServiceDecl → Call
  loop_round : Call

module _ {W : Type 0} (sys : System W) where
  perform : Call → PactSupervisor × W → PactSupervisor × W
  perform (Call.start_one d) (s, w) = ((start sys d s w).0, (start sys d s w).1)
  perform (Call.stop_one d) (s, w) = stop sys d s w
  perform (Call.restart_one d) (s, w) = ((restart sys d s w).0, (restart sys d s w).1)
  perform (Call.status_of d) (s, w) = ((status sys d s w).0, (status sys d s w).1)
  perform (Call.health_of d) (s, w) = ((health sys d s w).0, (health sys d s w).1)
  perform (Call.start_these ds) (s, w) = ((start_all sys ds s w).0, (start_all sys ds s w).1)
  perform (Call.stop_these ds) (s, w) = stop_all sys ds s w
  perform Call.loop_round (s, w) = supervise sys s w

  unfoldable pub run : List Call → PactSupervisor × W → PactSupervisor × W
  unfolding perform
  run [] sw = sw
  run (call ∷ calls) sw = run calls (perform call sw)

  health-IsSupervised :
      (d : ServiceDecl) (s : PactSupervisor) (w : W)
      → IsSupervised s
      → IsSupervised (health sys d s w).0
  unfolding health
  health-IsSupervised d s w i = elim (Bool-cases (is_running (status sys d s w).2.state)) [
    | inl p ↦ rw p (status-IsSupervised sys d s w i)
    | inr p ↦ rw p (status-IsSupervised sys d s w i)
  ]

  perform-IsSupervised :
      (call : Call) (s : PactSupervisor) (w : W)
      → IsSupervised s
      → IsSupervised (perform call (s, w)).0
  unfolding perform start_all stop_all
  perform-IsSupervised (Call.start_one d) s w i = start-IsSupervised sys d s w i
  perform-IsSupervised (Call.stop_one d) s w i = (stop-IsSupervised sys d s w i).0
  perform-IsSupervised (Call.restart_one d) s w i = restart-IsSupervised sys d s w i
  perform-IsSupervised (Call.status_of d) s w i = status-IsSupervised sys d s w i
  perform-IsSupervised (Call.health_of d) s w i = health-IsSupervised d s w i
  perform-IsSupervised (Call.start_these ds) s w i =
      start_each-IsSupervised sys (sorted_services ds) (record s { service_decls = ds }) w i
  perform-IsSupervised (Call.stop_these ds) s w i =
      stop_each-IsSupervised sys (reverse (sorted_services ds)) s w i
  perform-IsSupervised Call.loop_round s w i = supervise-IsSupervised sys s w i

-- Whatever the operating system answers, and whatever calls and rounds of the supervision loop follow
-- one another, each of them finished before the next: if at first every process that counts as running
-- has its child, every other has neither a child nor a process id, and none stands in the table twice,
-- then so it is in the end.
pub run-IsSupervised :
    {W : Type 0} (sys : System W) (calls : List Call) (s : PactSupervisor) (w : W)
    → IsSupervised s
    → IsSupervised (run sys calls (s, w)).0
unfolding run
run-IsSupervised sys [] s w i = i
run-IsSupervised sys (call ∷ calls) s w i =
    run-IsSupervised sys calls (perform sys call (s, w)).0 (perform sys call (s, w)).1
      (perform-IsSupervised sys call s w i)
