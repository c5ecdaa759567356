-- ===== src/Agent/Emergency.antt =====
-- crates/pact-agent/src/emergency/mod.rs: emergency mode on a node.
pub mod Ending
use pact.Base.{
  ℕ, ◌+◌, String, String_eq, Bool, true, false, not, ◌&&◌, Option, none, some, ◌==◌, if◌then◌else◌,
  leb,
}
use pact.Types.{DateTime, seconds, Identity}

pub data EmergencyState : Type 0 where
  inactive : EmergencyState
  -- started at, started by, the reason, and the expiry
  active : DateTime → Identity → String → DateTime → EmergencyState

pub record EmergencyManager : Type 0 where
  pub state : EmergencyState
  pub default_window_seconds : ℕ

pub data EmergencyError : Type 0 where
  already_active not_in_emergency : EmergencyError
  -- who started the emergency
  not_the_starter : String → EmergencyError

abbrev pub new : ℕ → EmergencyManager
new window = record { state = inactive; default_window_seconds = window }

abbrev pub is_active : EmergencyManager → Bool
is_active m = elim m.state [ inactive ↦ false | active _ _ _ _ ↦ true ]

-- `start` and `end`; no error is `Ok(())`.
unfoldable pub start :
    DateTime → Identity → String → EmergencyManager → EmergencyManager × Option EmergencyError
start now actor reason m = if is_active m then (m, some already_active) else (
  record m { state = active now actor reason (now + seconds m.default_window_seconds) },
  none,
)

unfoldable pub end_state :
    Identity → Bool → EmergencyState → EmergencyManager → EmergencyManager × Option EmergencyError
end_state actor force inactive m = (m, some not_in_emergency)
end_state actor force (active _ started_by _ _) m =
    if not force && not (started_by.principal == actor.principal)
    then (m, some (not_the_starter started_by.principal))
    else (record m { state = inactive }, none)

unfoldable pub end_emergency :
    Identity → Bool → EmergencyManager → EmergencyManager × Option EmergencyError
end_emergency actor force m = end_state actor force m.state m

abbrev pub is_stale : DateTime → EmergencyManager → Bool
is_stale now m = elim m.state [ inactive ↦ false | active _ _ _ expires_at ↦ leb expires_at now ]

abbrev pub reason : EmergencyManager → Option String
reason m = elim m.state [ inactive ↦ none | active _ _ text _ ↦ some text ]
