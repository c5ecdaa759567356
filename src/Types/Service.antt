-- ===== src/Types/Service.antt =====
-- crates/pact-common/src/types.rs: services and their supervision.
use pact.Base.{ℕ, String, Option, List}

pub data ServiceState : Type 0 where
  starting running stopping stopped failed restarting : ServiceState

pub data RestartPolicy : Type 0 where
  always on_failure never : RestartPolicy

pub data HealthCheckType : Type 0 where
  process : HealthCheckType
  http : String → HealthCheckType
  tcp : ℕ → HealthCheckType

pub record HealthCheck : Type 0 where
  pub check_type : HealthCheckType
  pub interval_seconds : ℕ

pub record ServiceDecl : Type 0 where
  pub name : String
  pub binary : String
  pub args : List String
  pub restart : RestartPolicy
  pub restart_delay_seconds : ℕ
  pub depends_on : List String
  pub order : ℕ
  pub cgroup_memory_max : Option String
  pub cgroup_slice : Option String
  pub cgroup_cpu_weight : Option ℕ
  pub health_check : Option HealthCheck
