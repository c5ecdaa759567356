-- ===== src/Agent/Conflict/Pausing.antt =====
-- crates/pact-agent/src/conflict/mod.rs: a key is paused as long as its conflict is open.
use pact.Base.{
  String, String_eq, true, false, ◌||◌, List, [], ◌∷◌, ◌++◌, some, ◌==◌, inl, inr, ◌≡◌, ◌≢◌, ◌↔◌,
  refl, sym, ◌∙◌, subst, contains, Bool-cases, ==_cases, ==_self, ==_false, arith, In, here, there,
}
use pact.Base.Map.{lookup, insert, lookup-insert_self, lookup-insert_ne}
use pact.Base.Bindings.{IsDistinct, insert-IsDistinct}
use pact.Agent.Conflict.{
  ConflictEntry, pending, ConflictManager, register_one, unpause, unpause_all, is_paused,
}

contains-append_one :
    (xs : List String) (a k : String) → contains (xs ++ (a ∷ [])) k ≡ (contains xs k || (k == a))
contains-append_one [] a k = ground arith
contains-append_one (x ∷ xs) a k = ground (arith, contains-append_one xs a k)

pub contains-unpause :
    (a : String) (xs : List String) (k : String)
    → (contains (unpause a xs) k ≡ true) ↔ ((contains xs k ≡ true) × (k ≢ a))
contains-unpause a [] k = ((λ h. cc), λ h. h.0)
contains-unpause a (x ∷ xs) k =
    let (to, of_) = contains-unpause a xs k in
    elim (==_cases x a) [
      | inl p ↦ rw ((String_eq.same_iff x a).1 p) (
        (λ h. let (q, n) = to h in (ground (arith, q), n)),
        λ h. elim (==_cases k x) [
          | inl q ↦ absurd (h.1 (q ∙ p))
          | inr (_, q) ↦ of_ (rw q at h.0, h.1)
        ],
      )
      | inr (n, p) ↦ rw p (elim (==_cases k x) [
        | inl q ↦
            (let same = (String_eq.same_iff k x).1 q in
              rw same ((λ _. (refl, λ r. n (sym q ∙ r))), λ _. refl))
        | inr (_, q) ↦ rw q (contains-unpause a xs k)
      ])
    ]

pub contains-unpause_all :
    (es xs : List String) (k : String)
    → (contains (unpause_all es xs) k ≡ true) ↔ ((contains xs k ≡ true) × (In k es → ⊥))
contains-unpause_all [] xs k = ((λ h. (h, λ i. elim i [ ])), λ h. h.0)
contains-unpause_all (e ∷ es) xs k = (
  (λ h.
      let (p, q) = (contains-unpause_all es (unpause e xs) k).0 h in
      let (r, n) = (contains-unpause e xs k).0 p in (r, out n q)),
  λ h.
      (contains-unpause_all es (unpause e xs) k).1
        ((contains-unpause e xs k).1 (h.0, λ p. h.1 (here p)), λ i. h.1 (there i)),
)
  where
    out : k ≢ e → (In k es → ⊥) → In k (e ∷ es) → ⊥
    out n q (here p) = n p
    out n q (there i) = q i

-- A conflict of the key waits for a decision.
abbrev pub IsOpen : String → ConflictManager → Type 0
IsOpen k m = (entry : ConflictEntry) × (lookup k m.conflicts ≡ some (entry, pending))

pub record IsConsistent (m : ConflictManager) : Type 0 where
  pub distinct : IsDistinct m.conflicts
  pub paused : (k : String) → (is_paused k m ≡ true) ↔ IsOpen k m

paused_now :
    (entry : ConflictEntry) (m : ConflictManager)
    → is_paused entry.key (register_one entry m) ≡ true
unfolding register_one
paused_now entry m = elim (Bool-cases (contains m.paused_keys entry.key)) [
  | inl p ↦ rw p p
  | inr p ↦
      rw p
        (contains-append_one m.paused_keys entry.key entry.key ∙ ground (arith, ==_self entry.key))
]

pauses_no_other :
    (entry : ConflictEntry) (m : ConflictManager) (k : String)
    → entry.key ≢ k
    → is_paused k (register_one entry m) ≡ is_paused k m
unfolding register_one
pauses_no_other entry m k n = elim (Bool-cases (contains m.paused_keys entry.key)) [
  | inl p ↦ rw p refl
  | inr p ↦
      let other : (k == entry.key) ≡ false = ==_false k entry.key (λ q. n (sym q)) in
      rw p (contains-append_one m.paused_keys entry.key k ∙ ground (arith, other))
]

pub register_one-IsConsistent :
    (entry : ConflictEntry) (m : ConflictManager)
    → IsConsistent m
    → IsConsistent (register_one entry m)
unfolding register_one
register_one-IsConsistent entry m h = record {
  distinct = insert-IsDistinct entry.key (entry, pending) m.conflicts h.distinct;
  paused = λ k. elim (==_cases entry.key k) [
    | inl p ↦ (
      (λ _. (
        entry,
        subst
            (λ j. lookup j (insert entry.key (entry, pending) m.conflicts) ≡ some (entry, pending))
            p (lookup-insert_self entry.key (entry, pending) m.conflicts),
      )),
      λ _. subst (λ j. is_paused j (register_one entry m) ≡ true) p (paused_now entry m),
    )
    | inr (n, p) ↦
        (let same = lookup-insert_ne k entry.key (entry, pending) m.conflicts n in
          rw (same, pauses_no_other entry m k n) (h.paused k))
  ];
}
