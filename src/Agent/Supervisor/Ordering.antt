-- ===== src/Agent/Supervisor/Ordering.antt =====
-- crates/pact-agent/src/supervisor/pact_supervisor.rs: the order in which services are started.
use pact.Base.{
  ℕ, ◌≤◌, ◌≡◌, refl, ◌∙◌, ap, Bool, true, false, List, [], ◌∷◌, ◌==◌, ℕ_eq, leb, select, All, arith,
  inl, inr, Bool-cases, ◌⊎◌, if◌then◌else◌,
}
use pact.Types.Service.{ServiceDecl}
use pact.Agent.Supervisor.Services.{insert_by_order, sorted_services}

-- No service stands before one of a lower order.
abbrev pub IsOrdered : List ServiceDecl → Type 0
IsOrdered [] = Unit
IsOrdered (d ∷ ds) = All (λ x. d.order ≤ x.order) ds × IsOrdered ds

abbrev pub has_order : ℕ → ServiceDecl → Bool
has_order k d = d.order == k

insert-All :
    (k : ℕ) (d : ServiceDecl) (ds : List ServiceDecl)
    → k ≤ d.order
    → All (λ x. k ≤ x.order) ds
    → All (λ x. k ≤ x.order) (insert_by_order d ds)
unfolding insert_by_order
insert-All k d [] h a = (h, tt)
insert-All k d (x ∷ xs) h a = elim (Bool-cases (leb d.order x.order)) [
  | inl p ↦ rw p (h, a)
  | inr p ↦ rw p (a.0, insert-All k d xs h a.1)
]

All-le :
    (j k : ℕ) (ds : List ServiceDecl)
    → j ≤ k
    → All (λ x. k ≤ x.order) ds
    → All (λ x. j ≤ x.order) ds
All-le j k [] h a = tt
All-le j k (x ∷ xs) h a = (omega arith, All-le j k xs h a.1)

insert-IsOrdered :
    (d : ServiceDecl) (ds : List ServiceDecl) → IsOrdered ds → IsOrdered (insert_by_order d ds)
unfolding insert_by_order
insert-IsOrdered d [] h = (tt, tt)
insert-IsOrdered d (x ∷ xs) h = elim (Bool-cases (leb d.order x.order)) [
  | inl p ↦
      let le : d.order ≤ x.order = ground arith in rw p ((le, All-le d.order x.order xs le h.0), h)
  | inr p ↦
      let le : x.order ≤ d.order = ground arith in
      rw p (insert-All x.order d xs le h.0, insert-IsOrdered d xs h.1)
]

-- The two may be swapped where not both are selected.
swapped :
    (a b : Bool) (d x : ServiceDecl) (s t : List ServiceDecl)
    → (a ≡ false) ⊎ (b ≡ false)
    → t ≡ (if a then d ∷ s else s)
    → (if b then x ∷ t else t)
      ≡ (if a then d ∷ (if b then x ∷ s else s) else if b then x ∷ s else s)
swapped true true d x s t o h = elim o [ inl e ↦ cc e | inr e ↦ cc e ]
swapped true false d x s t o h = h
swapped false true d x s t o h = ap (λ r. x ∷ r) h
swapped false false d x s t o h = h

-- Among the services of one order the new one stands first.
insert-select :
    (k : ℕ) (d : ServiceDecl) (ds : List ServiceDecl)
    → select (has_order k) (insert_by_order d ds) ≡ select (has_order k) (d ∷ ds)
unfolding insert_by_order
insert-select k d [] = refl
insert-select k d (x ∷ xs) = elim (Bool-cases (leb d.order x.order)) [
  | inl p ↦ rw p refl
  | inr p ↦
      let apart : (has_order k d ≡ false) ⊎ (has_order k x ≡ false) = ground arith in
      rw p (swapped (has_order k d) (has_order k x) d x _ _ apart (insert-select k d xs))
]

-- The services are brought into an order in which none stands before one of a lower order, and those
-- of each order are the same ones in the same sequence as declared.
pub sorted_services-stable :
    (ds : List ServiceDecl)
    → IsOrdered (sorted_services ds)
      × ((k : ℕ) → select (has_order k) (sorted_services ds) ≡ select (has_order k) ds)
unfolding sorted_services
sorted_services-stable [] = (tt, λ k. refl)
sorted_services-stable (d ∷ ds) =
    let (ordered, same) = sorted_services-stable ds in
    (
      insert-IsOrdered d (sorted_services ds) ordered,
      λ k. insert-select k d (sorted_services ds) ∙ (elim (Bool-cases (has_order k d)) [
        | inl q ↦ rw q (ap (λ t. d ∷ t) (same k))
        | inr q ↦ rw q (same k)
      ]),
    )
