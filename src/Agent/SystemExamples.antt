-- ===== src/Agent/SystemExamples.antt =====
-- crates/pact-agent: the theorems on the shell's arguments and the supervisor at concrete calls.
use Prim.Native.String.{◌++◌}
use pact.Base.{
  ◌≡◌, ◌↔◌, refl, inl, ℕ, String, String_eq, true, false, none, some, List, [], ◌∷◌, All, select,
  ne_of_==_false,
}
use pact.Base.Map.{Each-nil}
use pact.Base.Parts.{split}
use pact.Types.Service.{ServiceDecl, RestartPolicy}
use pact.Agent.Arguments.{validate_args, is_accepted}
use pact.Agent.Arguments.Blocking.{IsPermitted, validate_args_iff}
use pact.Agent.Arguments.Detours.{Detour, IsName, validate_args-Detour}
use pact.Agent.Supervisor.{System, PactSupervisor, Waited}
use pact.Agent.Supervisor.Services.{sorted_services}
use pact.Agent.Supervisor.Ordering.{IsOrdered, has_order, sorted_services-stable}
use pact.Agent.Supervisor.Tracking.{IsSupervised}
use pact.Agent.Supervisor.Runs.{Call, run, run-IsSupervised}

validate_args_iff_example :
    (validate_args "cat" ("/etc/hosts" ∷ "-n" ∷ []) ≡ none)
    ↔ All (IsPermitted "cat") ("/etc/hosts" ∷ "-n" ∷ [])
validate_args_iff_example = validate_args_iff "cat" ("/etc/hosts" ∷ "-n" ∷ [])

tmp-IsName : IsName "tmp"
tmp-IsName = record {
  not_empty = λ e. cc;
  not_here = ne_of_==_false "tmp" "." refl;
  not_up = ne_of_==_false "tmp" ".." refl;
}

tmp_and_back : Detour (split 47 "tmp/..")
unfolding split
tmp_and_back = Detour.around "tmp" [] [] tmp-IsName Detour.finished Detour.finished refl

validate_args-Detour_example :
    is_accepted (validate_args "cat" (("" ++ "/" ++ "tmp/.." ++ "/" ++ "etc/shadow") ∷ []))
    ≡ is_accepted (validate_args "cat" (("" ++ "/" ++ "etc/shadow") ∷ []))
validate_args-Detour_example =
    validate_args-Detour "cat" "" "tmp/.." "etc/shadow" [] (inl refl) tmp_and_back

abbrev service : String → ℕ → ServiceDecl
service name order = record {
  name = name;
  binary = "/usr/bin/true";
  args = [];
  restart = RestartPolicy.on_failure;
  restart_delay_seconds = 1;
  depends_on = [];
  order = order;
  cgroup_memory_max = some "512M";
  cgroup_slice = none;
  cgroup_cpu_weight = none;
  health_check = none;
}

abbrev services : List ServiceDecl
services = service "b" 2 ∷ service "a" 1 ∷ service "c" 2 ∷ []

sorted_services-stable_example :
    IsOrdered (sorted_services services)
    × ((k : ℕ) → select (has_order k) (sorted_services services) ≡ select (has_order k) services)
sorted_services-stable_example = sorted_services-stable services

-- A system whose children end at the first look, with code 1; the world counts nothing.
abbrev system : System ℕ
system = record {
  pact_infra = "pact.slice/infra.slice";
  create_scope = λ slice name limits w. (w, some name);
  destroy_scope = λ handle w. w;
  spawn = λ d w. (w, some 1);
  child_id = λ child w. some 100;
  try_wait = λ child w. (w, some (some 1));
  terminate = λ pid w. w;
  wait_for = λ grace child w. (w, Waited.grace_expired);
  kill = λ child w. w;
  emit_crash = λ name code again w. w;
  http_get = λ url w. (w, none);
  tcp_connect = λ port w. (w, false);
}

abbrev fresh : PactSupervisor
fresh = record {
  processes = [];
  service_decls = [];
  shutdown_grace_seconds = 10;
  cgroup_manager = true;
}

abbrev calls : List Call
calls = Call.start_these services ∷ Call.loop_round ∷ Call.stop_one (service "b" 2) ∷ []

run-IsSupervised_example : IsSupervised (run system calls (fresh, 0)).0
run-IsSupervised_example = run-IsSupervised system calls fresh 0 (Each-nil _, tt)
