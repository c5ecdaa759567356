-- ===== src/Journal/Limits.antt =====
-- crates/pact-journal/src/raft/state.rs: the bounds on overlays and on the audit log.
use pact.Base.{
  ◌+◌, ◌-◌, ◌≤◌, ◌≡◌, refl, sym, ◌⊎◌, length-take, List, [], ◌∷◌, ◌++◌, arith, length, take,
  length-append, length-drop, take-append-drop, String_eq, ==_true, ◌==◌, Bool-cases, ltb, false,
  inl, inr,
}
use pact.Base.Map.{Map, Each, Each-insert, insert}
use pact.Types.{VClusterId, BootOverlay, AdminOperation}
use pact.Journal.State.{JournalState, Library, audit_log_max, overlay_max_bytes}
use pact.Journal.Handlers.{set_overlay, capped, record_operation}

-- An overlay that fits, with the checksum of its bytes.
pub record IsSound (lib : Library) (o : BootOverlay) : Type 0 where
  pub fits : length o.bytes ≤ overlay_max_bytes
  pub checksum : o.checksum ≡ lib.compute_overlay_checksum o.bytes

abbrev pub AreSound : Library → Map VClusterId BootOverlay → Type 0
AreSound lib = Each (λ v o. IsSound lib o)

set_overlay-cases :
    (lib : Library) (v : VClusterId) (o : BootOverlay) (s : JournalState)
    → ((set_overlay lib v o s).0 ≡ s)
      ⊎ (IsSound lib o
          × ((set_overlay lib v o s).0 ≡ record s { overlays = insert v o s.overlays }))
unfolding set_overlay
set_overlay-cases lib v o s =
    elim (Bool-cases (o.checksum == lib.compute_overlay_checksum o.bytes)) [
      | inl p ↦ ground (arith, ==_true o.checksum (lib.compute_overlay_checksum o.bytes) p)
      | inr p ↦ ground arith
    ]

pub set_overlay-AreSound :
    (lib : Library) (v : VClusterId) (o : BootOverlay) (s : JournalState)
    → AreSound lib s.overlays
    → AreSound lib (set_overlay lib v o s).0.overlays
set_overlay-AreSound lib v o s h = elim (set_overlay-cases lib v o s) [
  | inl p ↦ rw p h
  | inr (ok, p) ↦ rw p (Each-insert (λ v o. IsSound lib o) v o s.overlays h ok)
]

capped_split :
    (log : List AdminOperation) → take (length log - audit_log_max) log ++ capped log ≡ log
unfolding capped
capped_split log = elim (Bool-cases (ltb audit_log_max (length log))) [
  | inl p ↦ rw p (take-append-drop (length log - audit_log_max) log)
  | inr p ↦ rw p (rw (within p) refl)
]
  where
    within : ltb audit_log_max (length log) ≡ false → length log - audit_log_max ≡ 0
    within p = ground arith

length-capped-le : (log : List AdminOperation) → length (capped log) ≤ audit_log_max
unfolding capped
length-capped-le log = ground (arith, length-drop (length log - audit_log_max) log)

-- Recording an operation keeps the log within its cap, with the operation last. What is dropped is
-- the oldest part, by as many as the log was longer than its cap with the operation.
pub record_operation-audit_log :
    (op : AdminOperation) (s : JournalState)
    → let log = (record_operation op s).0.audit_log in
      (length log ≤ audit_log_max)
      × ((dropped : List AdminOperation) × (s.audit_log ++ op ∷ [] ≡ dropped ++ log)
          × (length dropped ≡ length s.audit_log + 1 - audit_log_max))
unfolding record_operation
record_operation-audit_log op s =
    let log = s.audit_log ++ op ∷ [] in
    (
      length-capped-le log,
      (
        take (length log - audit_log_max) log,
        sym (capped_split log),
        omega (
          arith,
          length-take (length log - audit_log_max) log (omega arith),
          length-append s.audit_log (op ∷ []),
        ),
      ),
    )
