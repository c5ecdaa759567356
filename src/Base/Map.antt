-- ===== src/Base/Map.antt =====
-- `HashMap` and `BTreeMap` as association lists. `insert` writes over an old value in its place and
-- otherwise appends, so that keys stay distinct; the order of a `HashMap` means nothing to a theorem.
use pact.Base.Tests.{HasEq, ◌==◌, ==_self, ==_false, ==_cases, Bool-cases, if◌then◌else◌}
use mathlib.Core.Path.{◌≡◌, refl, sym, subst, ◌∙◌}
use mathlib.Core.Logic.{◌≢◌, inl, inr}
use mathlib.Core.Bool.{Bool, true, false}
use mathlib.Core.Option
use mathlib.Core.Option.{Option, none, some}
use mathlib.Core.List.{List, [], ◌∷◌}
use native.Mathlib.Omega.{arith}

abbrev pub Map {ℓ} : Type 0 → Type ℓ → Type ℓ
Map K V = List (K × V)

module _ {ℓ} {K : Type 0} {V : Type ℓ} ⦃e : HasEq K⦄ where
  -- `get`, and what `get_mut` finds.
  unfoldable pub lookup : K → Map K V → Option V
  lookup k [] = none
  lookup k ((j, v) ∷ m) = if j == k then some v else lookup k m

  unfoldable pub insert : K → V → Map K V → Map K V
  insert k v [] = (k, v) ∷ []
  insert k v ((j, w) ∷ m) = if j == k then (j, v) ∷ m else (j, w) ∷ insert k v m

  unfoldable pub remove : K → Map K V → Map K V
  remove k [] = []
  remove k ((j, w) ∷ m) = let rest = remove k m in if j == k then rest else (j, w) ∷ rest

  -- `contains_key`.
  unfoldable pub contains_key : K → Map K V → Bool
  contains_key k m = elim (lookup k m) [ none ↦ false | some _ ↦ true ]

  pub lookup-insert_self : (k : K) (v : V) (m : Map K V) → lookup k (insert k v m) ≡ some v
  unfolding lookup insert
  lookup-insert_self k v [] = rw (==_self k)
  lookup-insert_self k v ((j, w) ∷ m) = elim (Bool-cases (j == k)) [
    | inl p ↦ rw p (rw p)
    | inr p ↦ rw p (rw p (lookup-insert_self k v m))
  ]

  pub lookup-insert_ne :
      (j k : K) (v : V) (m : Map K V) → k ≢ j → lookup j (insert k v m) ≡ lookup j m
  unfolding lookup insert
  lookup-insert_ne j k v [] h = rw (==_false k j h)
  lookup-insert_ne j k v ((i, w) ∷ m) h = elim (==_cases i k) [
    | inl p ↦ rw p (rw (==_self k) (rw (==_false k j h)))
    | inr (p, q) ↦ rw q (rw (lookup-insert_ne j k v m h))
  ]

  pub lookup-insert :
      (j k : K) (v : V) (m : Map K V)
      → lookup j (insert k v m) ≡ (if k == j then some v else lookup j m)
  lookup-insert j k v m = elim (==_cases k j) [
    | inl p ↦ rw p (rw (==_self j) (lookup-insert_self j v m))
    | inr (p, q) ↦ rw q (lookup-insert_ne j k v m p)
  ]

  pub lookup-remove_self : (k : K) (m : Map K V) → lookup k (remove k m) ≡ none
  unfolding lookup remove
  lookup-remove_self k [] = refl
  lookup-remove_self k ((j, w) ∷ m) = elim (Bool-cases (j == k)) [
    | inl p ↦ rw p (lookup-remove_self k m)
    | inr p ↦ rw p (rw p (lookup-remove_self k m))
  ]

  pub lookup-remove_ne : (j k : K) (m : Map K V) → k ≢ j → lookup j (remove k m) ≡ lookup j m
  unfolding lookup remove
  lookup-remove_ne j k [] h = refl
  lookup-remove_ne j k ((i, w) ∷ m) h = elim (==_cases i k) [
    | inl p ↦ rw p (rw (==_self k) (rw (==_false k j h) (lookup-remove_ne j k m h)))
    | inr (p, q) ↦ rw q (rw (lookup-remove_ne j k m h))
  ]

  pub lookup-remove :
      (j k : K) (m : Map K V) → lookup j (remove k m) ≡ (if k == j then none else lookup j m)
  lookup-remove j k m = elim (==_cases k j) [
    | inl p ↦ rw p (rw (==_self j) (lookup-remove_self j m))
    | inr (p, q) ↦ rw q (lookup-remove_ne j k m p)
  ]

  pub contains_key-none : (k : K) (m : Map K V) → contains_key k m ≡ false → lookup k m ≡ none
  unfolding contains_key
  contains_key-none k m h = ground arith

  pub contains_key-some :
      (k : K) (m : Map K V) → contains_key k m ≡ true → (v : V) × (lookup k m ≡ some v)
  unfolding contains_key
  contains_key-some k m h = ground arith

-- Every binding of the map satisfies `P`.
module _ {ℓ κ} {K : Type 0} {V : Type ℓ} ⦃e : HasEq K⦄ where
  abbrev pub Each : (K → V → Type κ) → Map K V → Type (ℓ ⊔ κ)
  Each P m = (k : K) (v : V) → lookup k m ≡ some v → P k v

  pub Each-nil : (P : K → V → Type κ) → Each P []
  unfolding lookup
  Each-nil P k v h = cc

  pub Each-insert :
      (P : K → V → Type κ) (k : K) (v : V) (m : Map K V) → Each P m → P k v → Each P (insert k v m)
  Each-insert P k v m h p j w found = elim (==_cases k j) [
    | inl q ↦ subst (λ i. P i w) q (subst (P k) (value q) p)
    | inr (q, _) ↦ h j w (sym (lookup-insert_ne j k v m q) ∙ found)
  ]
    where
      value : k ≡ j → v ≡ w
      value q = cc (lookup-insert_self k v m, q, found)

  pub Each-remove : (P : K → V → Type κ) (k : K) (m : Map K V) → Each P m → Each P (remove k m)
  Each-remove P k m h j w found = elim (==_cases k j) [
    | inl q ↦ cc (lookup-remove_self k m, q, found)
    | inr (q, _) ↦ h j w (sym (lookup-remove_ne j k m q) ∙ found)
  ]

-- `for v in values_mut()`: every value is replaced.
module _ {ℓ κ} {K : Type 0} {V : Type ℓ} {W : Type κ} where
  unfoldable pub map_values : (V → W) → Map K V → Map K W
  map_values f [] = []
  map_values f ((k, v) ∷ m) = (k, f v) ∷ map_values f m

module _ {ℓ κ} {K : Type 0} {V : Type ℓ} {W : Type κ} ⦃e : HasEq K⦄ (f : V → W) where
  pub lookup-map_values :
      (k : K) (m : Map K V) → lookup k (map_values f m) ≡ Option.map f (lookup k m)
  unfolding lookup map_values
  lookup-map_values k [] = refl
  lookup-map_values k ((j, v) ∷ m) = elim (Bool-cases (j == k)) [
    | inl p ↦ rw p refl
    | inr p ↦ rw p (lookup-map_values k m)
  ]

  pub map_values-insert :
      (k : K) (v : V) (m : Map K V) → map_values f (insert k v m) ≡ insert k (f v) (map_values f m)
  unfolding insert map_values
  map_values-insert k v [] = refl
  map_values-insert k v ((j, w) ∷ m) = elim (Bool-cases (j == k)) [
    | inl p ↦ rw p refl
    | inr p ↦ rw p (rw (map_values-insert k v m))
  ]

  pub contains_key-map_values :
      (k : K) (m : Map K V) → contains_key k (map_values f m) ≡ contains_key k m
  unfolding contains_key
  contains_key-map_values k m = ground (arith, lookup-map_values k m)

pub map_values_idem {ℓ} :
    {K : Type 0} {V : Type ℓ} (f : V → V) (m : Map K V)
    → ((v : V) → f (f v) ≡ f v)
    → map_values f (map_values f m) ≡ map_values f m
unfolding map_values
map_values_idem f [] h = refl
map_values_idem f ((k, v) ∷ m) h = rw (h v, map_values_idem f m h)
