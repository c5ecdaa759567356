-- ===== src/Agent/Commit.antt =====
-- crates/pact-agent/src/commit/mod.rs: the window in which drift is committed or rolled back.
pub mod Expiry
use pact.Base.{
  ℕ, ◌+◌, ◌-◌, ◌/◌, ◌%◌, ◌^◌, String, Bool, true, false, ◌&&◌, Option, none, some, if◌then◌else◌,
  leb, ltb,
}
use pact.Types.{DateTime, seconds, F64}

-- crates/pact-common/src/config.rs
pub record CommitWindowConfig : Type 0 where
  pub base_window_seconds : ℕ
  pub drift_sensitivity : F64
  pub emergency_window_seconds : ℕ

pub data WindowState : Type 0 where
  idle : WindowState
  -- opened at, and the deadline
  «open» : DateTime → DateTime → WindowState
  -- opened at, and expired at
  expired : DateTime → DateTime → WindowState

pub record CommitWindowManager : Type 0 where
  pub config : CommitWindowConfig
  pub state : WindowState
  pub emergency : Bool

-- The operations of f64 that the window's length is computed with: `mul_add`, `/`, `max`, and the
-- conversions from and to u32.
pub record Floats : Type 0 where
  pub mul_add : F64 → F64 → F64 → F64
  pub divide : F64 → F64 → F64
  pub max : F64 → F64 → F64
  pub from_u32 : ℕ → F64
  pub to_u32 : F64 → ℕ

abbrev pub one : F64
one = 0x3FF0000000000000

abbrev pub sixty : F64
sixty = 0x404E000000000000

abbrev pub new : CommitWindowConfig → CommitWindowManager
new config = record { config = config; state = idle; emergency = false }

unfoldable pub update_config : ℕ → F64 → ℕ → CommitWindowManager → CommitWindowManager
update_config base sensitivity emergency_window m = record m {
  config = record {
    base_window_seconds = base;
    drift_sensitivity = sensitivity;
    emergency_window_seconds = emergency_window;
  };
}

unfoldable pub calculate_window_seconds : Floats → F64 → CommitWindowManager → ℕ
calculate_window_seconds f magnitude m =
    let denominator = f.mul_add magnitude m.config.drift_sensitivity one in
    let window = f.divide (f.from_u32 m.config.base_window_seconds) denominator in
    f.to_u32 (f.max window sixty)

abbrev pub opened_at : DateTime → WindowState → DateTime
opened_at now («open» at deadline) = at
opened_at now _ = now

unfoldable pub open_window : Floats → DateTime → F64 → CommitWindowManager → CommitWindowManager
open_window f now magnitude m =
    let window =
      if m.emergency
      then m.config.emergency_window_seconds
      else calculate_window_seconds f magnitude m in
    record m { state = «open» (opened_at now m.state) (now + seconds window) }

-- `check_expired` for each state.
unfoldable pub check_state :
    DateTime → WindowState → CommitWindowManager → CommitWindowManager × Bool
check_state now («open» at deadline) m =
    if leb deadline now
    then if m.emergency then (m, false) else (record m { state = expired at deadline }, true)
    else (m, false)
check_state now (expired _ _) m = (m, true)
check_state now idle m = (m, false)

unfoldable pub check_expired : DateTime → CommitWindowManager → CommitWindowManager × Bool
check_expired now m = check_state now m.state m

unfoldable pub commit : CommitWindowManager → CommitWindowManager
commit m = record m { state = idle }

unfoldable pub rollback : CommitWindowManager → CommitWindowManager
rollback m = record m { state = idle }

-- The error is the number of active consumers, which its message shows.
unfoldable pub rollback_with_check : ℕ → CommitWindowManager → CommitWindowManager × Option ℕ
rollback_with_check consumers m =
    if ltb 0 consumers then (m, some consumers) else (record m { state = idle }, none)

abbrev pub extended : ℕ → WindowState → WindowState
extended additional («open» at deadline) = «open» at (deadline + seconds additional)
extended additional idle = idle
extended additional (expired at on) = expired at on

unfoldable pub extend : ℕ → CommitWindowManager → CommitWindowManager
extend additional m = record m { state = extended additional m.state }

abbrev pub reopened : DateTime → ℕ → WindowState → WindowState
reopened now window («open» at deadline) = «open» now (now + seconds window)
reopened now window idle = idle
reopened now window (expired at on) = expired at on

unfoldable pub enter_emergency : DateTime → CommitWindowManager → CommitWindowManager
enter_emergency now m = record m {
  emergency = true;
  state = reopened now m.config.emergency_window_seconds m.state;
}

unfoldable pub exit_emergency : CommitWindowManager → CommitWindowManager
exit_emergency m = record m { emergency = false }

abbrev pub remaining : DateTime → WindowState → ℕ
remaining now («open» at deadline) = ((deadline - now) / seconds 1) % 2 ^ 32
remaining now _ = 0

abbrev pub seconds_remaining : DateTime → CommitWindowManager → ℕ
seconds_remaining now m = remaining now m.state
