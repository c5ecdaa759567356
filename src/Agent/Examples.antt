-- ===== src/Agent/Examples.antt =====
-- crates/pact-agent: the theorems at concrete calls.
use pact.Base.{
  ◌≡◌, List, arith, ◌↔◌, ◌≤◌, ◌+◌, refl, ◌⊎◌, true, [], ◌∷◌, some, String_eq, false, In,
}
use pact.Base.Map.{lookup, insert}
use pact.Base.Text.{strip_prefix, starts_with}
use pact.Agent.Mounts
use pact.Agent.Mounts.{MountRefManager, acquire}
use pact.Agent.Mounts.Paths.{image_name}
use pact.Agent.Mounts.Ledger.{Matches}
use pact.Agent.Mounts.Counting.{entered_all, perform_all-Matches}
use pact.Types.{Identity, PrincipalType}
use pact.Agent.Emergency
use pact.Agent.Emergency.{EmergencyManager, active}
use pact.Agent.Emergency.Ending.{emergency_stays}
use pact.Agent.Commit
use pact.Agent.Commit.{CommitWindowManager, Floats, «open», check_expired}
use pact.Agent.Commit.Expiry.{IsExpired, IsDue, check_expired_iff, emergency_never_expires}
use pact.Agent.Conflict.{
  ConflictEntry, accept_local, pending, grace_expired, ConflictManager, new, check_grace_periods,
  is_paused, register_one,
}
use pact.Agent.Conflict.Pausing.{IsConsistent, register_one-IsConsistent}
use pact.Agent.Conflict.Grace.{
  to_register, to_resolve, to_check, to_clear, perform_all, perform_all-IsConsistent,
  check_grace_periods_lem,
}

abbrev at_ten : ConflictEntry
at_ten = record { key = "k"; local_value = 1 ∷ []; journal_value = 2 ∷ []; detected_at = 10 }

abbrev one_open : ConflictManager
one_open = record {
  conflicts = ("k", (at_ten, pending)) ∷ [];
  grace_period = 5;
  paused_keys = "k" ∷ [];
}

new-IsConsistent : IsConsistent (new 900)
unfolding lookup
new-IsConsistent = record { distinct = tt; paused = λ k. ((λ h. cc), λ o. cc (o.1)) }

perform_all-IsConsistent_example : IsConsistent (
    perform_all
      (to_register (at_ten ∷ []) ∷ to_resolve "k" accept_local ∷ to_check 20 ∷ to_clear ∷ [])
      (new 900))
perform_all-IsConsistent_example =
    perform_all-IsConsistent
      (to_register (at_ten ∷ []) ∷ to_resolve "k" accept_local ∷ to_check 20 ∷ to_clear ∷ [])
      (new 900) new-IsConsistent

abbrev short : ConflictManager
short = record { conflicts = []; grace_period = 5; paused_keys = [] }

one_open-IsConsistent : IsConsistent one_open
unfolding register_one insert
one_open-IsConsistent =
    register_one-IsConsistent at_ten short
      (unfold lookup in record { distinct = tt; paused = λ k. ((λ h. cc), λ o. cc (o.1)) })

check_grace_periods_lem_example : (10 + 5 ≤ 20) ↔ (
    In "k" (check_grace_periods 20 one_open).1
    × (lookup "k" (check_grace_periods 20 one_open).0.conflicts ≡ some (at_ten, grace_expired))
    × (is_paused "k" (check_grace_periods 20 one_open).0 ≡ false))
unfolding lookup
check_grace_periods_lem_example =
    check_grace_periods_lem 20 one_open "k" at_ten one_open-IsConsistent refl

abbrev alice : Identity
alice = record { principal = "alice"; principal_type = PrincipalType.human; role = "pact-ops-ml" }

abbrev bob : Identity
bob = record { principal = "bob"; principal_type = PrincipalType.human; role = "pact-ops-ml" }

abbrev fire : EmergencyManager
fire = record { state = active 5 alice "fire" 100; default_window_seconds = 95 }

emergency_stays_example :
    Emergency.Ending.perform_all
      (Emergency.Ending.to_end bob false ∷ Emergency.Ending.to_start 7 bob "again" ∷ [])
      fire
    ≡ fire
emergency_stays_example =
    emergency_stays
      (Emergency.Ending.to_end bob false ∷ Emergency.Ending.to_start 7 bob "again" ∷ []) fire 5 100
      alice "fire" refl (refl, (λ p. cc), tt)

-- Operations of f64 that keep one value.
abbrev floats : Floats
floats = record {
  mul_add = λ a b c. a;
  divide = λ a b. a;
  max = λ a b. a;
  from_u32 = λ n. n;
  to_u32 = λ x. 60;
}

abbrev window : CommitWindowManager
window = record {
  config = record {
    base_window_seconds = 900;
    drift_sensitivity = 0;
    emergency_window_seconds = 14400;
  };
  state = «open» 0 10;
  emergency = true;
}

emergency_never_expires_example :
    (check_expired 99 (
      Commit.Expiry.perform_all floats
        (Commit.Expiry.to_check 20 ∷ Commit.Expiry.to_open 30 0 ∷ [])
        window)).1
    ≡ false
emergency_never_expires_example =
    emergency_never_expires floats (Commit.Expiry.to_check 20 ∷ Commit.Expiry.to_open 30 0 ∷ [])
      window 99 tt (record { emergency = refl; running = λ x. x })

check_expired_iff_example :
    ((check_expired 20 window).1 ≡ true)
    ↔ (IsExpired window.state ⊎ (IsDue 20 window.state × (window.emergency ≡ false)))
check_expired_iff_example = check_expired_iff 20 window

abbrev empty_mounts : MountRefManager
empty_mounts = Mounts.new "/run/uenv" 60

abbrev shared : List Mounts.Counting.Call
shared =
    Mounts.Counting.to_acquire "/images/a.sqfs"
    ∷ Mounts.Counting.to_acquire "/images/a.sqfs"
    ∷ Mounts.Counting.to_release 5 "/images/a.sqfs"
    ∷ Mounts.Counting.to_check 900000000000
    ∷ Mounts.Counting.to_force_unmount "/images/a.sqfs"
    ∷ Mounts.Counting.to_reconstruct 900000000001 (("/images/b.sqfs", 1) ∷ [])
    ∷ Mounts.Counting.to_release 900000000002 "/images/b.sqfs"
    ∷ []

mount_test : (acquire "/images/a.sqfs" empty_mounts).1 ≡ "/run/uenv/a"
unfolding acquire lookup image_name starts_with strip_prefix
mount_test = refl

empty-Matches : Matches empty_mounts (λ k. 0)
unfolding lookup
empty-Matches = record { distinct = tt; counts = λ k. refl }

perform_all-Matches_example :
    (t : MountRefManager) × (Mounts.Counting.perform_all shared empty_mounts ≡ some t)
    × Matches t (entered_all shared (λ k. 0))
perform_all-Matches_example =
    perform_all-Matches shared empty_mounts (λ k. 0) empty-Matches
      (omega arith, (omega arith, (omega arith, (tt, (tt, (tt, (omega arith, tt)))))))
