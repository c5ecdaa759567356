-- ===== src/Agent/Conflict.antt =====
-- crates/pact-agent/src/conflict/mod.rs: the conflicts that an agent finds when it reconnects.
pub mod Pausing
pub mod Grace
use pact.Base.{
  ℕ, ◌+◌, String, String_eq, Bool, true, false, not, ◌&&◌, List, [], ◌∷◌, ◌++◌, Option, none, some,
  ◌==◌, ◌⊎◌, inl, inr, if◌then◌else◌, leb, select, contains, map, all, length,
}
use pact.Base.Map.{Map, lookup, insert, map_values}
use pact.Base.Bindings.{keys}
use pact.Types.{DateTime, seconds}

pub record ConflictEntry : Type 0 where
  pub key : String
  pub local_value : List ℕ
  pub journal_value : List ℕ
  pub detected_at : DateTime

pub data Resolution : Type 0 where
  accept_local accept_journal : Resolution

pub data ConflictState : Type 0 where
  pending : ConflictState
  resolved : Resolution → ConflictState
  grace_expired : ConflictState

abbrev pub is_pending : ConflictState → Bool
is_pending pending = true
is_pending _ = false

pub record ConflictManager : Type 0 where
  pub conflicts : Map String (ConflictEntry × ConflictState)
  pub grace_period : ℕ
  pub paused_keys : List String

abbrev pub new : ℕ → ConflictManager
new grace_period_seconds = record {
  conflicts = [];
  grace_period = seconds grace_period_seconds;
  paused_keys = [];
}

-- The body of the loop of `register_conflicts`.
unfoldable pub register_one : ConflictEntry → ConflictManager → ConflictManager
register_one entry m = record m {
  paused_keys =
      if contains m.paused_keys entry.key then m.paused_keys else m.paused_keys ++ (entry.key ∷ []);
  conflicts = insert entry.key (entry, pending) m.conflicts;
}

unfoldable pub register_conflicts : List ConflictEntry → ConflictManager → ConflictManager
register_conflicts [] m = m
register_conflicts (entry ∷ entries) m = register_conflicts entries (register_one entry m)

abbrev pub is_paused : String → ConflictManager → Bool
is_paused key m = contains m.paused_keys key

abbrev pub pending_conflicts : ConflictManager → List ConflictEntry
pending_conflicts m = map (λ b. b.1.0) (select (λ b. is_pending b.1.1) m.conflicts)

-- `paused_keys.retain(|k| k != key)`.
abbrev pub unpause : String → List String → List String
unpause key keys = select (λ k. not (k == key)) keys

-- The two errors of `resolve`.
pub data ResolveError : Type 0 where
  no_conflict already_resolved : String → ResolveError

unfoldable pub resolve :
    String → Resolution → ConflictManager → ConflictManager × (ResolveError ⊎ ConflictEntry)
resolve key resolution m = elim (lookup key m.conflicts) [
  | none ↦ (m, inl (no_conflict key))
  | some (entry, state) ↦ if not (is_pending state) then (m, inl (already_resolved key)) else (
    record m {
      conflicts = insert key (entry, resolved resolution) m.conflicts;
      paused_keys = unpause key m.paused_keys;
    },
    inr entry,
  )
]

abbrev pub is_over : DateTime → ℕ → ConflictEntry × ConflictState → Bool
is_over now grace (entry, state) = is_pending state && leb (entry.detected_at + grace) now

abbrev pub expire : DateTime → ℕ → ConflictEntry × ConflictState → ConflictEntry × ConflictState
expire now grace c = if is_over now grace c then (c.0, grace_expired) else c

abbrev pub unpause_all : List String → List String → List String
unpause_all [] keys = keys
unpause_all (key ∷ expired) keys = unpause_all expired (unpause key keys)

abbrev pub expired_keys : DateTime → ConflictManager → List String
expired_keys now m = keys (select (λ b. is_over now m.grace_period b.1) m.conflicts)

unfoldable pub check_grace_periods : DateTime → ConflictManager → ConflictManager × List String
check_grace_periods now m = (
  record m {
    conflicts = map_values (expire now m.grace_period) m.conflicts;
    paused_keys = unpause_all (expired_keys now m) m.paused_keys;
  },
  expired_keys now m,
)

abbrev pub all_resolved : ConflictManager → Bool
all_resolved m = all (λ b. not (is_pending b.1.1)) m.conflicts

abbrev pub pending_count : ConflictManager → ℕ
pending_count m = length (select (λ b. is_pending b.1.1) m.conflicts)

unfoldable pub clear_resolved : ConflictManager → ConflictManager
clear_resolved m = record m { conflicts = select (λ b. is_pending b.1.1) m.conflicts }

abbrev pub resolution_log : ConflictManager → List (String × ConflictState × List ℕ × List ℕ)
resolution_log m =
    map (λ b. (b.0, b.1.1, b.1.0.local_value, b.1.0.journal_value))
      (select (λ b. not (is_pending b.1.1)) m.conflicts)
