-- ===== src/Agent/Commit/Expiry.antt =====
-- crates/pact-agent/src/commit/mod.rs: when a window is over, and that none is over in an emergency.
use pact.Base.{
  ℕ, ◌≤◌, ◌≡◌, ◌⊎◌, ◌↔◌, inl, inr, refl, true, false, List, [], ◌∷◌, arith, Bool-cases, ltb,
}
use pact.Types.{DateTime, F64}
use pact.Agent.Commit.{
  CommitWindowManager, WindowState, idle, «open», expired, Floats, update_config, open_window,
  check_expired, check_state, commit, rollback, rollback_with_check, extend, enter_emergency,
  exit_emergency, reopened, extended,
}

-- The window is over.
abbrev pub IsExpired : WindowState → Type 0
IsExpired (expired _ _) = Unit
IsExpired _ = ⊥

-- The window is open and its deadline reached.
abbrev pub IsDue : DateTime → WindowState → Type 0
IsDue now («open» at deadline) = deadline ≤ now
IsDue now _ = ⊥

check_state_iff :
    (now : DateTime) (state : WindowState) (m : CommitWindowManager)
    → ((check_state now state m).1 ≡ true)
      ↔ (IsExpired state ⊎ (IsDue now state × (m.emergency ≡ false)))
unfolding check_state
check_state_iff now idle m = ((λ h. cc), λ h. elim h [ inl x ↦ absurd x | inr x ↦ absurd x.0 ])
check_state_iff now («open» at deadline) m =
    ((λ h. inr (ground arith)), λ h. elim h [ inl x ↦ absurd x | inr (d, e) ↦ ground arith ])
check_state_iff now (expired at on) m = ((λ h. inl tt), λ h. refl)

-- A check answers that the window is over if and only if it was found over before, or its deadline is
-- reached and there is no emergency.
pub check_expired_iff :
    (now : DateTime) (m : CommitWindowManager)
    → ((check_expired now m).1 ≡ true)
      ↔ (IsExpired m.state ⊎ (IsDue now m.state × (m.emergency ≡ false)))
unfolding check_expired
check_expired_iff now m = check_state_iff now m.state m

-- The calls on a manager, with the clock that each reads.
pub data Call : Type 0 where
  to_update : ℕ → F64 → ℕ → Call
  to_open : DateTime → F64 → Call
  to_check : DateTime → Call
  to_commit to_rollback : Call
  to_rollback_with : ℕ → Call
  to_extend : ℕ → Call
  to_enter : DateTime → Call
  to_exit : Call

unfoldable pub perform : Floats → Call → CommitWindowManager → CommitWindowManager
perform f (to_update base sensitivity window) m = update_config base sensitivity window m
perform f (to_open now magnitude) m = open_window f now magnitude m
perform f (to_check now) m = (check_expired now m).0
perform f to_commit m = commit m
perform f to_rollback m = rollback m
perform f (to_rollback_with consumers) m = (rollback_with_check consumers m).0
perform f (to_extend additional) m = extend additional m
perform f (to_enter now) m = enter_emergency now m
perform f to_exit m = exit_emergency m

unfoldable pub perform_all : Floats → List Call → CommitWindowManager → CommitWindowManager
perform_all f [] m = m
perform_all f (call ∷ calls) m = perform_all f calls (perform f call m)

-- In an emergency, with no window over.
pub record IsSuspended (m : CommitWindowManager) : Type 0 where
  pub emergency : m.emergency ≡ true
  pub running : IsExpired m.state → ⊥

abbrev pub NoExit : List Call → Type 0
NoExit [] = Unit
NoExit (to_exit ∷ calls) = ⊥
NoExit (call ∷ calls) = NoExit calls

abbrev NotExit : Call → Type 0
NotExit to_exit = ⊥
NotExit _ = Unit

extended-IsExpired : (n : ℕ) (s : WindowState) → IsExpired (extended n s) → IsExpired s
extended-IsExpired n idle h = h
extended-IsExpired n («open» at deadline) h = h
extended-IsExpired n (expired at on) h = h

reopened-IsExpired :
    (now : DateTime) (n : ℕ) (s : WindowState) → IsExpired (reopened now n s) → IsExpired s
reopened-IsExpired now n idle h = h
reopened-IsExpired now n («open» at deadline) h = h
reopened-IsExpired now n (expired at on) h = h

check_state-suspended :
    (now : DateTime) (state : WindowState) (m : CommitWindowManager)
    → m.emergency ≡ true
    → (check_state now state m).0 ≡ m
unfolding check_state
check_state-suspended now idle m h = refl
check_state-suspended now («open» at deadline) m h = ground arith
check_state-suspended now (expired at on) m h = refl

rollback_with-IsSuspended :
    (k : ℕ) (m : CommitWindowManager) → IsSuspended m → IsSuspended (rollback_with_check k m).0
unfolding rollback_with_check
rollback_with-IsSuspended k m h = elim (Bool-cases (ltb 0 k)) [
  | inl q ↦ rw q h
  | inr q ↦ rw q (record { emergency = h.emergency; running = λ x. x })
]

perform-IsSuspended :
    (f : Floats) (call : Call) (m : CommitWindowManager)
    → NotExit call
    → IsSuspended m
    → IsSuspended (perform f call m)
unfolding perform update_config open_window check_expired commit rollback rollback_with_check extend
    enter_emergency
perform-IsSuspended f (to_update base sensitivity window) m n h = record {
  emergency = h.emergency;
  running = h.running;
}
perform-IsSuspended f (to_open now magnitude) m n h = record {
  emergency = h.emergency;
  running = λ x. x;
}
perform-IsSuspended f (to_check now) m n h = rw (check_state-suspended now m.state m h.emergency) h
perform-IsSuspended f to_commit m n h = record { emergency = h.emergency; running = λ x. x }
perform-IsSuspended f to_rollback m n h = record { emergency = h.emergency; running = λ x. x }
perform-IsSuspended f (to_rollback_with k) m n h = rollback_with-IsSuspended k m h
perform-IsSuspended f (to_extend k) m n h = record {
  emergency = h.emergency;
  running = λ x. h.running (extended-IsExpired k m.state x);
}
perform-IsSuspended f (to_enter now) m n h = record {
  emergency = refl;
  running = λ x. h.running (reopened-IsExpired now m.config.emergency_window_seconds m.state x);
}
perform-IsSuspended f to_exit m n h = absurd n

NoExit-parts :
    (call : Call) (calls : List Call) → NoExit (call ∷ calls) → NotExit call × NoExit calls
NoExit-parts (to_update a b c) calls h = (tt, h)
NoExit-parts (to_open a b) calls h = (tt, h)
NoExit-parts (to_check a) calls h = (tt, h)
NoExit-parts to_commit calls h = (tt, h)
NoExit-parts to_rollback calls h = (tt, h)
NoExit-parts (to_rollback_with a) calls h = (tt, h)
NoExit-parts (to_extend a) calls h = (tt, h)
NoExit-parts (to_enter a) calls h = (tt, h)
NoExit-parts to_exit calls h = absurd h

perform_all-IsSuspended :
    (f : Floats) (calls : List Call) (m : CommitWindowManager)
    → NoExit calls
    → IsSuspended m
    → IsSuspended (perform_all f calls m)
unfolding perform_all
perform_all-IsSuspended f [] m n h = h
perform_all-IsSuspended f (call ∷ calls) m n h =
    let (first, rest) = NoExit-parts call calls n in
    perform_all-IsSuspended f calls (perform f call m) rest (perform-IsSuspended f call m first h)

-- In an emergency that begins with no window over, and as long as it is not left: whatever calls are
-- made, no check at any moment answers that the window is over.
pub emergency_never_expires :
    (f : Floats) (calls : List Call) (m : CommitWindowManager) (now : DateTime)
    → NoExit calls
    → IsSuspended m
    → (check_expired now (perform_all f calls m)).1 ≡ false
emergency_never_expires f calls m now n h =
    let t = perform_all f calls m in
    let s = perform_all-IsSuspended f calls m n h in
    elim (Bool-cases (check_expired now t).1) [
      | inr q ↦ q
      | inl q ↦ elim ((check_expired_iff now t).0 q) [
        | inl x ↦ absurd (s.running x)
        | inr (_, e) ↦ cc (e, s.emergency)
      ]
    ]
