-- ===== src/Agent/Mounts/Counting.antt =====
-- crates/pact-agent/src/handoff/mounts.rs: the counts are those of a ledger of users.
use pact.Base.{ℕ, ◌+◌, ◌^◌, ◌<◌, ◌≡◌, refl, String, String_eq, Option, none, some, List, [], ◌∷◌}
use pact.Base.Map.{}
use pact.Types.{DateTime}
use pact.Agent.Mounts.{
  MountRefManager, acquire, release, force_unmount, check_expired_holds, reconstruct,
}
use pact.Agent.Mounts.Ledger.{
  Ledger, Matches, raise, lower, assign, assign_all, acquire-Matches, release-Matches,
  force_unmount-Matches, reconstruct-Matches, check-Matches,
}

-- The calls that change a manager.
pub data Call : Type 0 where
  to_acquire : String → Call
  to_release : DateTime → String → Call
  to_force_unmount : String → Call
  to_check : DateTime → Call
  to_reconstruct : DateTime → List (String × ℕ) → Call

unfoldable pub perform : Call → MountRefManager → Option MountRefManager
perform (to_acquire image) m = some (acquire image m).0
perform (to_release now image) m = release now image m
perform (to_force_unmount image) m = some (force_unmount image m)
perform (to_check now) m = some (check_expired_holds now m).0
perform (to_reconstruct now active) m = some (reconstruct now active m)

-- None is a panic on the way.
unfoldable pub perform_all : List Call → MountRefManager → Option MountRefManager
perform_all [] m = some m
perform_all (call ∷ calls) m = elim (perform call m) [ none ↦ none | some t ↦ perform_all calls t ]

abbrev pub entered : Call → Ledger → Ledger
entered (to_acquire image) l = raise image l
entered (to_release now image) l = lower image l
entered (to_force_unmount image) l = assign image 0 l
entered (to_check now) l = l
entered (to_reconstruct now active) l = assign_all active l

abbrev pub entered_all : List Call → Ledger → Ledger
entered_all [] l = l
entered_all (call ∷ calls) l = entered_all calls (entered call l)

-- A release is by a user, and no image gets more users than a u32 counts.
abbrev pub IsAllowed : Call → Ledger → Type 0
IsAllowed (to_acquire image) l = l image + 1 < 2 ^ 32
IsAllowed (to_release now image) l = 0 < l image
IsAllowed (to_force_unmount image) l = Unit
IsAllowed (to_check now) l = Unit
IsAllowed (to_reconstruct now active) l = Unit

abbrev pub AreAllowed : List Call → Ledger → Type 0
AreAllowed [] l = Unit
AreAllowed (call ∷ calls) l = IsAllowed call l × AreAllowed calls (entered call l)

perform-Matches :
    (call : Call) (m : MountRefManager) (l : Ledger)
    → Matches m l
    → IsAllowed call l
    → (t : MountRefManager) × (perform call m ≡ some t) × Matches t (entered call l)
unfolding perform
perform-Matches (to_acquire image) m l h ok =
    ((acquire image m).0, refl, acquire-Matches image m l h ok)
perform-Matches (to_release now image) m l h ok = release-Matches now image m l h ok
perform-Matches (to_force_unmount image) m l h ok =
    (force_unmount image m, refl, force_unmount-Matches image m l h)
perform-Matches (to_check now) m l h ok =
    ((check_expired_holds now m).0, refl, check-Matches now m l h)
perform-Matches (to_reconstruct now active) m l h ok =
    (reconstruct now active m, refl, reconstruct-Matches now active m l h)

-- Let a manager count the users of a ledger, and let calls follow that change it, in which each release
-- is of an image with users in the ledger at that time and no acquisition brings an image to 2 ^ 32
-- users. Then no assertion fails, and in the end the manager counts the users of the ledger with the
-- calls entered in it: an acquisition adds a user and a release takes one away, a forced unmount strikes
-- out all users of its image, a reconstruction sets the users of each image that it lists, and a check
-- of the hold timers changes no count, so that it unmounts no image with users.
pub perform_all-Matches :
    (calls : List Call) (m : MountRefManager) (l : Ledger)
    → Matches m l
    → AreAllowed calls l
    → (t : MountRefManager) × (perform_all calls m ≡ some t) × Matches t (entered_all calls l)
unfolding perform_all
perform_all-Matches [] m l h ok = (m, refl, h)
perform_all-Matches (call ∷ calls) m l h ok =
    let (t, p, g) = perform-Matches call m l h ok.0 in
    let (u, q, last) = perform_all-Matches calls t (entered call l) g ok.1 in
    (u, rw (perform_all, p) q, last)
