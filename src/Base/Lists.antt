-- ===== src/Base/Lists.antt =====
-- Lists measured by native numbers, membership tests, and predicates on all or some elements.
use Prim.Native.Nat.{ℕ, zero, suc, ◌+◌, ◌-◌, ◌≤◌}
use mathlib.Core.Path.{◌≡◌, refl, sym, ap, subst}
use mathlib.Core.Bool.{Bool, true, false, ◌&&◌, ◌||◌}
use mathlib.Core.Logic.{◌⊎◌, ◌↔◌, inl, inr}
use mathlib.Core.List.{List, [], ◌∷◌, ◌++◌, map, reverse, reverse-cons}
use native.Mathlib.Omega.{arith}
use pact.Base.Tests.{HasEq, ◌==◌, Bool-cases, if◌then◌else◌}

module _ {ℓ} {A : Type ℓ} where
  abbrev pub length : List A → ℕ
  length [] = 0
  length (x ∷ xs) = suc (length xs)

  abbrev pub drop : ℕ → List A → List A
  drop zero xs = xs
  drop (suc n) [] = []
  drop (suc n) (x ∷ xs) = drop n xs

  abbrev pub take : ℕ → List A → List A
  take zero xs = []
  take (suc n) [] = []
  take (suc n) (x ∷ xs) = x ∷ take n xs

  pub length-append : (xs ys : List A) → length (xs ++ ys) ≡ length xs + length ys
  length-append [] ys = omega arith
  length-append (x ∷ xs) ys = omega (arith, length-append xs ys)

  pub length-drop : (n : ℕ) (xs : List A) → length (drop n xs) ≡ length xs - n
  length-drop zero xs = omega arith
  length-drop (suc n) [] = omega arith
  length-drop (suc n) (x ∷ xs) = omega (arith, length-drop n xs)

  pub take-append-drop : (n : ℕ) (xs : List A) → take n xs ++ drop n xs ≡ xs
  take-append-drop zero xs = refl
  take-append-drop (suc n) [] = refl
  take-append-drop (suc n) (x ∷ xs) = ap (λ t. x ∷ t) (take-append-drop n xs)

  pub length-take : (n : ℕ) (xs : List A) → n ≤ length xs → length (take n xs) ≡ n
  length-take zero xs h = refl
  length-take (suc n) [] h = absurd (omega arith)
  length-take (suc n) (x ∷ xs) h = omega (arith, length-take n xs (omega arith))

  -- `iter().any(p)` and `iter().all(p)`.
  abbrev pub any : (A → Bool) → List A → Bool
  any p [] = false
  any p (x ∷ xs) = p x || any p xs

  abbrev pub all : (A → Bool) → List A → Bool
  all p [] = true
  all p (x ∷ xs) = p x && all p xs

  -- `iter().filter(p)`.
  abbrev pub select : (A → Bool) → List A → List A
  select p [] = []
  select p (x ∷ xs) = let rest = select p xs in if p x then x ∷ rest else rest

  -- `a` stands in the list.
  pub data In (a : A) : List A → Type ℓ where
    here : {x : A} {xs : List A} → a ≡ x → In a (x ∷ xs)
    there : {x : A} {xs : List A} → In a xs → In a (x ∷ xs)

  pub In-append_left : {a : A} {xs : List A} (ys : List A) → In a xs → In a (xs ++ ys)
  In-append_left ys (here e) = here e
  In-append_left ys (there m) = there (In-append_left ys m)

  pub In-append_right : {a : A} (xs : List A) {ys : List A} → In a ys → In a (xs ++ ys)
  In-append_right [] m = m
  In-append_right (x ∷ xs) m = there (In-append_right xs m)

  pub In-append : {a : A} (xs : List A) {ys : List A} → In a (xs ++ ys) → In a xs ⊎ In a ys
  In-append [] m = inr m
  In-append (x ∷ xs) (here e) = inl (here e)
  In-append (x ∷ xs) (there m) = elim (In-append xs m) [ inl l ↦ inl (there l) | inr r ↦ inr r ]

module _ {ℓ} {A : Type ℓ} ⦃e : HasEq A⦄ where
  -- `contains`.
  abbrev pub contains : List A → A → Bool
  contains [] a = false
  contains (x ∷ xs) a = a == x || contains xs a

module _ {ℓ} {A : Type ℓ} ⦃e : HasEq A⦄ where
  pub contains-In : (xs : List A) (a : A) → contains xs a ≡ true → In a xs
  contains-In [] a h = cc
  contains-In (x ∷ xs) a h = elim (Bool-cases (a == x)) [
    | inl p ↦ here ((e.same_iff a x).0 p)
    | inr p ↦ there (contains-In xs a (rw p at h))
  ]

  pub contains-append :
      (xs ys : List A) (a : A) → contains (xs ++ ys) a ≡ (contains xs a || contains ys a)
  contains-append [] ys a = refl
  contains-append (x ∷ xs) ys a = let rest = contains-append xs ys a in ground arith

  pub In-contains : (xs : List A) (a : A) → In a xs → contains xs a ≡ true
  In-contains [] a m = elim m [ ]
  In-contains (x ∷ xs) a (here p) = rw ((e.same_iff a x).1 p) refl
  In-contains (x ∷ xs) a (there m) = elim (Bool-cases (a == x)) [
    | inl p ↦ rw p refl
    | inr p ↦ rw p (In-contains xs a m)
  ]

module _ {ℓ κ} {A : Type ℓ} {B : Type κ} (f : A → B) where
  pub In-map : (xs : List A) (b : B) → In b (map f xs) → (a : A) × In a xs × (b ≡ f a)
  In-map [] b m = elim m [ ]
  In-map (x ∷ xs) b (here p) = (x, here refl, p)
  In-map (x ∷ xs) b (there m) = let (a, q, r) = In-map xs b m in (a, there q, r)

  pub In-map_of : (xs : List A) (a : A) → In a xs → In (f a) (map f xs)
  In-map_of [] a m = elim m [ ]
  In-map_of (x ∷ xs) a (here p) = here (ap f p)
  In-map_of (x ∷ xs) a (there m) = there (In-map_of xs a m)

-- What stands in a list stands in its reverse, and the other way about.
module _ {ℓ} {A : Type ℓ} where
  In-reverse : (xs : List A) (a : A) → In a (reverse xs) → In a xs
  In-reverse [] a m = m
  In-reverse (x ∷ xs) a m = elim (In-append (reverse xs) (subst (In a) (reverse-cons x xs) m)) [
    | inl l ↦ there (In-reverse xs a l)
    | inr (here e) ↦ here e
    | inr (there n) ↦ elim n [ ]
  ]

  In-reverse_of : (xs : List A) (a : A) → In a xs → In a (reverse xs)
  In-reverse_of [] a m = m
  In-reverse_of (x ∷ xs) a (here e) =
      subst (In a) (sym (reverse-cons x xs)) (In-append_right (reverse xs) (here e))
  In-reverse_of (x ∷ xs) a (there m) =
      subst (In a) (sym (reverse-cons x xs)) (In-append_left (x ∷ []) (In-reverse_of xs a m))

  pub In-reverse_iff : (xs : List A) (a : A) → In a (reverse xs) ↔ In a xs
  In-reverse_iff xs a = (In-reverse xs a, In-reverse_of xs a)

-- `flat_map`, and what stands in its result.
module _ {ℓ κ} {A : Type ℓ} {B : Type κ} where
  abbrev pub flat_map : (A → List B) → List A → List B
  flat_map f [] = []
  flat_map f (x ∷ xs) = f x ++ flat_map f xs

  pub In-flat_map :
      (f : A → List B) (xs : List A) (b : B) → In b (flat_map f xs) → (a : A) × In a xs × In b (f a)
  In-flat_map f [] b m = elim m [ ]
  In-flat_map f (x ∷ xs) b m = elim (In-append (f x) m) [
    | inl l ↦ (x, here refl, l)
    | inr r ↦ let (a, p, q) = In-flat_map f xs b r in (a, there p, q)
  ]

  pub In-flat_map_of :
      (f : A → List B) (xs : List A) (a : A) (b : B) → In a xs → In b (f a) → In b (flat_map f xs)
  In-flat_map_of f [] a b h m = elim h [ ]
  In-flat_map_of f (x ∷ xs) a b (here p) m =
      In-append_left (flat_map f xs) (subst (λ y. In b (f y)) p m)
  In-flat_map_of f (x ∷ xs) a b (there p) m = In-append_right (f x) (In-flat_map_of f xs a b p m)

module _ {ℓ} {A : Type ℓ} (p : A → Bool) where
  pub In-select : (xs : List A) (a : A) → In a (select p xs) → In a xs × (p a ≡ true)
  In-select [] a m = elim m [ ]
  In-select (x ∷ xs) a m = elim (Bool-cases (p x)) [
    | inl q ↦ kept q (In-select xs a) (rw q at m)
    | inr q ↦ let (r, h) = In-select xs a (rw q at m) in (there r, h)
  ]
    where
      kept :
          p x ≡ true
          → (In a (select p xs) → In a xs × (p a ≡ true))
          → In a (x ∷ select p xs)
          → In a (x ∷ xs) × (p a ≡ true)
      kept q ih (here e) = (here e, rw e q)
      kept q ih (there r) = let (s, h) = ih r in (there s, h)

  pub In-select_of : (xs : List A) (a : A) → In a xs → p a ≡ true → In a (select p xs)
  In-select_of [] a m h = elim m [ ]
  In-select_of (x ∷ xs) a (here e) h = let q : p x ≡ true = cc (ap p e, h) in rw q (here e)
  In-select_of (x ∷ xs) a (there m) h = elim (Bool-cases (p x)) [
    | inl q ↦ rw q (there (In-select_of xs a m h))
    | inr q ↦ rw q (In-select_of xs a m h)
  ]

module _ {ℓ κ} {A : Type ℓ} where
  -- Every element satisfies `P`.
  abbrev pub All : (A → Type κ) → List A → Type κ
  All P [] = Unit
  All P (x ∷ xs) = P x × All P xs

-- Mapping there and back gives the list itself when it gives each element.
module _ {ℓ κ μ} {A : Type ℓ} {B : Type κ} where
  pub map_back_iff :
      (g : A → B) (f : B → A) (P : A → Type μ)
      → ((x : A) → (f (g x) ≡ x) ↔ P x)
      → (xs : List A) → (map f (map g xs) ≡ xs) ↔ All P xs
  map_back_iff g f P each [] = (λ h. tt, λ h. refl)
  map_back_iff g f P each (x ∷ xs) =
      let (towards, back) = map_back_iff g f P each xs in
      (λ h. ((each x).0 (cc), towards (cc)), λ h. cc ((each x).1 h.0, back h.1))
