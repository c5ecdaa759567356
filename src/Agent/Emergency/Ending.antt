-- ===== src/Agent/Emergency/Ending.antt =====
-- crates/pact-agent/src/emergency/mod.rs: who ends an emergency.
use pact.Base.{
  ◌≡◌, ◌≢◌, ap, ◌∙◌, inl, inr, refl, String, String_eq, Bool, true, false, List, [], ◌∷◌, ==_cases,
}
use pact.Types.{DateTime, Identity}
use pact.Agent.Emergency.{EmergencyManager, active, start, end_emergency, end_state, is_active}

-- The calls on a manager.
pub data Call : Type 0 where
  to_start : DateTime → Identity → String → Call
  to_end : Identity → Bool → Call

unfoldable pub perform : Call → EmergencyManager → EmergencyManager
perform (to_start now actor reason) m = (start now actor reason m).0
perform (to_end actor force) m = (end_emergency actor force m).0

unfoldable pub perform_all : List Call → EmergencyManager → EmergencyManager
perform_all [] m = m
perform_all (call ∷ calls) m = perform_all calls (perform call m)

-- No call ends an emergency by force, or in the name of the principal.
abbrev pub NotEndedBy : String → List Call → Type 0
NotEndedBy principal [] = Unit
NotEndedBy principal (to_start now actor reason ∷ calls) = NotEndedBy principal calls
NotEndedBy principal (to_end actor force ∷ calls) =
    (force ≡ false) × (principal ≢ actor.principal) × NotEndedBy principal calls

kept_by_start :
    (now : DateTime) (actor : Identity) (reason : String) (m : EmergencyManager)
    → is_active m ≡ true
    → (start now actor reason m).0 ≡ m
unfolding start
kept_by_start now actor reason m h = rw h refl

kept_by_end :
    (by actor : Identity) (at until : DateTime) (why : String) (m : EmergencyManager)
    → by.principal ≢ actor.principal
    → (end_state actor false (active at by why until) m).0 ≡ m
unfolding end_state
kept_by_end by actor at until why m n = elim (==_cases by.principal actor.principal) [
  | inl p ↦ absurd (n p)
  | inr (_, p) ↦ rw p refl
]

ends_not :
    (by actor : Identity) (at until : DateTime) (why : String) (force : Bool) (m : EmergencyManager)
    → m.state ≡ active at by why until
    → force ≡ false
    → by.principal ≢ actor.principal
    → (end_emergency actor force m).0 ≡ m
unfolding end_emergency
ends_not by actor at until why force m h f other =
    rw f (ap (λ s. (end_state actor false s m).0) h ∙ kept_by_end by actor at until why m other)

-- An emergency stays as it was started, with its starter, reason and expiry, along all calls of which
-- none ends it by force and none ends it as its starter; nobody starts another one over it.
pub emergency_stays :
    (calls : List Call) (m : EmergencyManager) (at until : DateTime) (by : Identity) (why : String)
    → m.state ≡ active at by why until
    → NotEndedBy by.principal calls
    → perform_all calls m ≡ m
unfolding perform_all perform
emergency_stays [] m at until by why h n = refl
emergency_stays (to_start now actor reason ∷ calls) m at until by why h n =
    rw (kept_by_start now actor reason m (rw h refl)) (emergency_stays calls m at until by why h n)
emergency_stays (to_end actor force ∷ calls) m at until by why h (f, other, n) =
    rw (ends_not by actor at until why force m h f other)
      (emergency_stays calls m at until by why h n)
