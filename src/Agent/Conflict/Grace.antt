-- ===== src/Agent/Conflict/Grace.antt =====
-- crates/pact-agent/src/conflict/mod.rs: decisions, grace periods, and all calls in any order.
use pact.Base.{
  ℕ, ◌+◌, ◌≤◌, arith, String, String_eq, true, false, List, [], ◌∷◌, some, ◌⊎◌, inl, inr, ◌≡◌, ◌↔◌,
  refl, sym, ap, ◌∙◌, subst, select, Bool-cases, Option-cases, ==_cases, In, In-select,
  In-select_of,
}
use pact.Base.Map.{lookup, insert, lookup-insert_self, lookup-insert_ne, lookup-map_values}
use pact.Base.Bindings.{
  In-keys, In-keys_of, IsDistinct, In-lookup, lookup-In_own, insert-IsDistinct, select-IsDistinct,
  map_values-IsDistinct,
}
use pact.Types.{DateTime}
use pact.Agent.Conflict.{
  ConflictEntry, Resolution, ConflictState, pending, resolved, grace_expired, is_pending,
  ConflictManager, register_conflicts, register_one, unpause, resolve, ResolveError, no_conflict,
  already_resolved, is_over, expire, expired_keys, check_grace_periods, clear_resolved, is_paused,
}
use pact.Agent.Conflict.Pausing.{
  IsOpen, IsConsistent, contains-unpause, contains-unpause_all, register_one-IsConsistent,
}

is_pending-true : (s : ConflictState) → is_pending s ≡ true → s ≡ pending
is_pending-true pending h = refl
is_pending-true (resolved r) h = cc
is_pending-true grace_expired h = cc

-- What `resolve` finds, and what it does about it.
abbrev settled : String → Resolution → ConflictEntry → ConflictManager → ConflictManager
settled key r entry m = record m {
  conflicts = insert key (entry, resolved r) m.conflicts;
  paused_keys = unpause key m.paused_keys;
}

resolve-cases :
    (key : String) (r : Resolution) (m : ConflictManager)
    → ((entry : ConflictEntry) × (lookup key m.conflicts ≡ some (entry, pending))
        × (resolve key r m ≡ (settled key r entry m, inr entry)))
      ⊎ ((IsOpen key m → ⊥) × ((e : ResolveError) × (resolve key r m ≡ (m, inl e))))
unfolding resolve
resolve-cases key r m = elim (Option-cases (lookup key m.conflicts)) [
  | inl p ↦ inr ((λ o. cc (p, o.1)), (no_conflict key, rw (resolve, p) refl))
  | inr ((entry, state), p) ↦ elim (Bool-cases (is_pending state)) [
    | inl q ↦
        let is : state ≡ pending = is_pending-true state q in
        inl (entry, p ∙ ap (λ s. some (entry, s)) is, rw (resolve, p, q) refl)
    | inr q ↦ inr (
      (λ o. let is : state ≡ pending = cc (p, o.1) in cc (ap is_pending is, q)),
      (already_resolved key, rw (resolve, p, q) refl),
    )
  ]
]

-- `resolve` succeeds if and only if a conflict of the key is still open.
pub resolve-ok_iff :
    (key : String) (r : Resolution) (m : ConflictManager)
    → ((entry : ConflictEntry) × ((resolve key r m).1 ≡ inr entry)) ↔ IsOpen key m
resolve-ok_iff key r m = elim (resolve-cases key r m) [
  | inl (entry, p, q) ↦ ((λ h. (entry, p)), λ o. (entry, ap (λ x. x.1) q))
  | inr (n, (e, q)) ↦ ((λ h. cc (ap (λ x. x.1) q, h.1)), λ o. absurd (n o))
]

resolve-IsConsistent :
    (key : String) (r : Resolution) (m : ConflictManager)
    → IsConsistent m
    → IsConsistent (resolve key r m).0
resolve-IsConsistent key r m h = elim (resolve-cases key r m) [
  | inr (n, (e, q)) ↦ rw q h
  | inl (entry, p, q) ↦ rw q (record {
    distinct = insert-IsDistinct key (entry, resolved r) m.conflicts h.distinct;
    paused = λ k. elim (==_cases key k) [
      | inl e ↦ (
        (λ c. absurd (((contains-unpause key m.paused_keys k).0 c).1 (sym e))),
        λ o. cc (lookup-insert_self key (entry, resolved r) m.conflicts, e, o.1),
      )
      | inr (n, _) ↦
          let same = lookup-insert_ne k key (entry, resolved r) m.conflicts n in
          let (to, of_) = contains-unpause key m.paused_keys k in
          rw same ((λ c. (h.paused k).0 (to c).0), λ o. of_ ((h.paused k).1 o, λ e. n (sym e)))
    ];
  })
]

-- The keys that a check at `now` reports are those whose conflict is open and out of grace.
expired_keys_iff :
    (now : DateTime) (m : ConflictManager) (k : String)
    → IsConsistent m
    → In k (expired_keys now m) ↔ (
        (c : ConflictEntry × ConflictState) × (lookup k m.conflicts ≡ some c)
        × (is_over now m.grace_period c ≡ true))
expired_keys_iff now m k h = (
  (λ i.
      let (c, j) = In-keys k (select (λ b. is_over now m.grace_period b.1) m.conflicts) i in
      let (found, over) = In-select (λ b. is_over now m.grace_period b.1) m.conflicts (k, c) j in
      (c, In-lookup k m.conflicts h.distinct found, over)),
  λ (c, p, q). In-keys_of k c _ (
      In-select_of (λ b. is_over now m.grace_period b.1) m.conflicts (k, c)
        (lookup-In_own k m.conflicts p) q),
)

stays_pending_iff :
    (now : DateTime) (grace : ℕ) (c : ConflictEntry × ConflictState) (entry : ConflictEntry)
    → (expire now grace c ≡ (entry, pending))
      ↔ ((c ≡ (entry, pending)) × (is_over now grace c ≡ false))
stays_pending_iff now grace c entry = elim (Bool-cases (is_over now grace c)) [
  | inl p ↦ ((λ h. cc (rw p at h)), λ h. cc (p, h.1))
  | inr p ↦ rw p ((λ h. (h, refl)), λ h. h.0)
]

check-IsConsistent :
    (now : DateTime) (m : ConflictManager)
    → IsConsistent m
    → IsConsistent (check_grace_periods now m).0
unfolding check_grace_periods
check-IsConsistent now m h = record {
  distinct = map_values-IsDistinct (expire now m.grace_period) m.conflicts h.distinct;
  paused = λ k.
      let (to, of_) = contains-unpause_all (expired_keys now m) m.paused_keys k in
      let (gone, gone_of) = expired_keys_iff now m k h in
      let looked = lookup-map_values (expire now m.grace_period) k m.conflicts in
      (
        (λ c.
            let (was, kept) = to c in
            let (entry, p) = (h.paused k).0 was in
            let timely : is_over now m.grace_period (entry, pending) ≡ false =
              elim (Bool-cases (is_over now m.grace_period (entry, pending))) [
                | inl q ↦ absurd (kept (gone_of ((entry, pending), p, q)))
                | inr q ↦ q
              ] in
            (
              entry,
              looked
                  ∙ rw p (
                      ap some (
                        (stays_pending_iff now m.grace_period (entry, pending) entry).1
                          (refl, timely))),
            )),
        λ (entry, p). elim (Option-cases (lookup k m.conflicts)) [
          | inl q ↦ let n = sym looked ∙ p in cc (rw q at n)
          | inr (c, q) ↦
              let n : some (expire now m.grace_period c) ≡ some (entry, pending) =
                (let n0 = sym looked ∙ p in rw q at n0) in
              let (is, timely) = (stays_pending_iff now m.grace_period c entry).0 (cc n) in
              of_ (
                (h.paused k).1 (entry, q ∙ ap some is),
                λ i.
                    let (d, r, over) = gone i in
                    let same : c ≡ d = cc (q, r) in
                    cc (over, timely, ap (is_over now m.grace_period) same),
              )
        ],
      );
}

clear-IsConsistent : (m : ConflictManager) → IsConsistent m → IsConsistent (clear_resolved m)
unfolding clear_resolved
clear-IsConsistent m h = record {
  distinct = left;
  paused = λ k. (
    (λ c.
        let (entry, p) = (h.paused k).0 c in
        (
          entry,
          In-lookup k _ left (
              In-select_of (λ b. is_pending b.1.1) m.conflicts (k, (entry, pending))
                (lookup-In_own k m.conflicts p) refl),
        )),
    λ (entry, p). (h.paused k).1 (
      entry,
      In-lookup k m.conflicts h.distinct (
          (In-select (λ b. is_pending b.1.1) m.conflicts (k, (entry, pending))
            (lookup-In_own k _ p)).0),
    ),
  );
}
  where
    left : IsDistinct (clear_resolved m).conflicts
    left = select-IsDistinct (λ b. is_pending b.1.1) m.conflicts h.distinct

register-IsConsistent :
    (entries : List ConflictEntry) (m : ConflictManager)
    → IsConsistent m
    → IsConsistent (register_conflicts entries m)
unfolding register_conflicts
register-IsConsistent [] m h = h
register-IsConsistent (entry ∷ entries) m h =
    register-IsConsistent entries (register_one entry m) (register_one-IsConsistent entry m h)

-- The calls that change a manager.
pub data Call : Type 0 where
  to_register : List ConflictEntry → Call
  to_resolve : String → Resolution → Call
  to_check : DateTime → Call
  to_clear : Call

unfoldable pub perform : Call → ConflictManager → ConflictManager
perform (to_register entries) m = register_conflicts entries m
perform (to_resolve key r) m = (resolve key r m).0
perform (to_check now) m = (check_grace_periods now m).0
perform to_clear m = clear_resolved m

unfoldable pub perform_all : List Call → ConflictManager → ConflictManager
perform_all [] m = m
perform_all (call ∷ calls) m = perform_all calls (perform call m)

perform-IsConsistent :
    (call : Call) (m : ConflictManager) → IsConsistent m → IsConsistent (perform call m)
unfolding perform
perform-IsConsistent (to_register entries) m h = register-IsConsistent entries m h
perform-IsConsistent (to_resolve key r) m h = resolve-IsConsistent key r m h
perform-IsConsistent (to_check now) m h = check-IsConsistent now m h
perform-IsConsistent to_clear m h = clear-IsConsistent m h

-- After any calls on a manager in which no key stands twice and the paused keys are those of its open
-- conflicts, the same holds: convergence of a key is paused if and only if its conflict is still open.
pub perform_all-IsConsistent :
    (calls : List Call) (m : ConflictManager) → IsConsistent m → IsConsistent (perform_all calls m)
unfolding perform_all
perform_all-IsConsistent [] m h = h
perform_all-IsConsistent (call ∷ calls) m h =
    perform_all-IsConsistent calls (perform call m) (perform-IsConsistent call m h)

-- Let no key stand twice and the paused keys be those of the open conflicts. Then the grace period of
-- an open conflict has run out by the moment of a check if and only if the check reports its key, marks
-- the conflict so that the journal wins, and leaves the key no longer paused.
pub check_grace_periods_lem :
    (now : DateTime) (m : ConflictManager) (k : String) (entry : ConflictEntry)
    → IsConsistent m
    → lookup k m.conflicts ≡ some (entry, pending)
    → (entry.detected_at + m.grace_period ≤ now) ↔ (
        In k (check_grace_periods now m).1
        × (lookup k (check_grace_periods now m).0.conflicts ≡ some (entry, grace_expired))
        × (is_paused k (check_grace_periods now m).0 ≡ false))
unfolding check_grace_periods
check_grace_periods_lem now m k entry h p = (
  λ l.
      let over = over_of l in
      let found : lookup k (check_grace_periods now m).0.conflicts ≡ some (entry, grace_expired) =
        lookup-map_values (expire now m.grace_period) k m.conflicts ∙ rw (p, over) refl in
      (
        reported.1 ((entry, pending), p, over),
        found,
        elim (Bool-cases (is_paused k (check_grace_periods now m).0)) [
          | inr q ↦ q
          | inl q ↦ let (other, r) = ((check-IsConsistent now m h).paused k).0 q in cc (found, r)
        ],
      ),
  λ (i, _, _).
      let (c, q, over) = reported.0 i in
      let same : c ≡ (entry, pending) = cc (p, q) in
      late (subst (λ d. is_over now m.grace_period d ≡ true) same over),
)
  where
    reported : In k (expired_keys now m) ↔ (
        (c : ConflictEntry × ConflictState) × (lookup k m.conflicts ≡ some c)
        × (is_over now m.grace_period c ≡ true))
    reported = expired_keys_iff now m k h

    over_of :
        entry.detected_at + m.grace_period ≤ now
        → is_over now m.grace_period (entry, pending) ≡ true
    over_of l = ground arith

    late :
        is_over now m.grace_period (entry, pending) ≡ true
        → entry.detected_at + m.grace_period ≤ now
    late o = ground arith
