-- ===== src/Base/Bindings.antt =====
-- The bindings that stand in an association list, and where those of a changed list come from.
use mathlib.Core.Path.{◌≡◌, refl, sym, ap, ◌∙◌}
use mathlib.Core.Logic.{inl, inr, ◌⊎◌}
use mathlib.Core.Option
use mathlib.Core.Option.{none, some}
use mathlib.Core.List.{List, [], ◌∷◌, map}
use mathlib.Core.Bool.{Bool, true}
use pact.Base.Tests.{HasEq, ◌==◌, Bool-cases, ==_cases}
use pact.Base.Lists.{In, here, there, select}
use pact.Base.Map.{
  Map, lookup, insert, remove, lookup-remove_ne, map_values, lookup-insert_ne, lookup-map_values,
}

module _ {ℓ} {K : Type 0} {V : Type ℓ} ⦃e : HasEq K⦄ where
  -- What is found stands in the list.
  pub lookup-In : (k : K) (m : Map K V) {v : V} → lookup k m ≡ some v → (j : K) × In (j, v) m
  unfolding lookup
  lookup-In k [] h = cc
  lookup-In k ((j, w) ∷ m) {v} h = elim (Bool-cases (j == k)) [
    | inl p ↦ let same : v ≡ w = cc (rw p at h) in (j, here (ap (λ x. (j, x)) same))
    | inr p ↦ let (i, found) = lookup-In k m (rw p at h) in (i, there found)
  ]

  -- A binding after `insert` has the new value, or stood there before.
  pub In-insert :
      (k : K) (v : V) (m : Map K V) {j : K} {w : V}
      → In (j, w) (insert k v m)
      → (w ≡ v) ⊎ In (j, w) m
  unfolding insert
  In-insert k v [] (here p) = inl (ap (λ b. b.1) p)
  In-insert k v [] (there p) = elim p [ ]
  In-insert k v ((i, x) ∷ m) {j} {w} h = elim (Bool-cases (i == k)) [
    | inl p ↦ replaced (rw p at h)
    | inr p ↦ kept (rw p at h) (In-insert k v m)
  ]
    where
      replaced : In (j, w) ((i, v) ∷ m) → (w ≡ v) ⊎ In (j, w) ((i, x) ∷ m)
      replaced (here q) = inl (ap (λ b. b.1) q)
      replaced (there q) = inr (there q)

      kept :
          In (j, w) ((i, x) ∷ insert k v m)
          → (In (j, w) (insert k v m) → (w ≡ v) ⊎ In (j, w) m)
          → (w ≡ v) ⊎ In (j, w) ((i, x) ∷ m)
      kept (here q) ih = inr (here q)
      kept (there q) ih = elim (ih q) [ inl r ↦ inl r | inr r ↦ inr (there r) ]

module _ {ℓ κ} {K : Type 0} {V : Type ℓ} {W : Type κ} (f : V → W) where
  pub In-map_values :
      (m : Map K V) {k : K} {w : W} → In (k, w) (map_values f m) → (v : V) × In (k, v) m × (w ≡ f v)
  unfolding map_values
  In-map_values [] h = elim h [ ]
  In-map_values ((j, v) ∷ m) (here p) = (v, here (ap (λ b. (b.0, v)) p), ap (λ b. b.1) p)
  In-map_values ((j, v) ∷ m) (there p) = let (u, q, r) = In-map_values m p in (u, there q, r)

-- No key stands twice, so that a binding that stands in the list is the one that is found.
module _ {ℓ} {K : Type 0} {V : Type ℓ} ⦃e : HasEq K⦄ where
  abbrev pub IsDistinct : Map K V → Type ℓ
  IsDistinct [] = Unit
  IsDistinct ((k, v) ∷ m) = (lookup k m ≡ none) × IsDistinct m

  pub In-lookup : (k : K) (m : Map K V) {v : V} → IsDistinct m → In (k, v) m → lookup k m ≡ some v
  unfolding lookup
  In-lookup k [] d h = elim h [ ]
  In-lookup k ((j, w) ∷ m) {v} d (here p) =
      let q : (j == k) ≡ true = (e.same_iff j k).1 (ap (λ b. b.0) (sym p)) in
      rw q (ap (λ b. some b.1) (sym p))
  In-lookup k ((j, w) ∷ m) {v} d (there h) = elim (Bool-cases (j == k)) [
    | inl p ↦ let same : j ≡ k = (e.same_iff j k).0 p in cc (d.0, same, In-lookup k m d.1 h)
    | inr p ↦ rw p (In-lookup k m d.1 h)
  ]

  -- What is found stands in the list under its own key.
  pub lookup-In_own : (k : K) (m : Map K V) {v : V} → lookup k m ≡ some v → In (k, v) m
  unfolding lookup
  lookup-In_own k [] h = cc
  lookup-In_own k ((j, w) ∷ m) {v} h = elim (Bool-cases (j == k)) [
    | inl p ↦
        let same : v ≡ w = cc (rw p at h) in
        let own : j ≡ k = (e.same_iff j k).0 p in here (cc (same, own))
    | inr p ↦ there (lookup-In_own k m (rw p at h))
  ]

  pub insert-IsDistinct : (k : K) (v : V) (m : Map K V) → IsDistinct m → IsDistinct (insert k v m)
  unfolding insert
  insert-IsDistinct k v [] d = (unfold lookup in refl, tt)
  insert-IsDistinct k v ((j, w) ∷ m) d = elim (==_cases j k) [
    | inl p ↦ rw ((e.same_iff j k).1 p) d
    | inr (n, p) ↦
        rw p (lookup-insert_ne j k v m (λ q. n (sym q)) ∙ d.0, insert-IsDistinct k v m d.1)
  ]

  select-none :
      (p : K × V → Bool) (k : K) (m : Map K V) → lookup k m ≡ none → lookup k (select p m) ≡ none
  unfolding lookup
  select-none p k [] h = h
  select-none p k ((j, w) ∷ m) h = elim (Bool-cases (j == k)) [
    | inl q ↦ cc (rw q at h)
    | inr q ↦ elim (Bool-cases (p (j, w))) [
      | inl r ↦ rw (r, q) (select-none p k m (rw q at h))
      | inr r ↦ rw r (select-none p k m (rw q at h))
    ]
  ]

  pub select-IsDistinct : (p : K × V → Bool) (m : Map K V) → IsDistinct m → IsDistinct (select p m)
  select-IsDistinct p [] d = d
  select-IsDistinct p ((j, w) ∷ m) d = elim (Bool-cases (p (j, w))) [
    | inl r ↦ rw r (select-none p j m d.0, select-IsDistinct p m d.1)
    | inr r ↦ rw r (select-IsDistinct p m d.1)
  ]

module _ {ℓ κ} {K : Type 0} {V : Type ℓ} {W : Type κ} ⦃e : HasEq K⦄ (f : V → W) where
  pub map_values-IsDistinct : (m : Map K V) → IsDistinct m → IsDistinct (map_values f m)
  unfolding map_values
  map_values-IsDistinct [] d = tt
  map_values-IsDistinct ((k, v) ∷ m) d =
      (lookup-map_values f k m ∙ ap (Option.map f) d.0, map_values-IsDistinct m d.1)

module _ {ℓ} {K : Type 0} {V : Type ℓ} where
  -- The keys of a list of bindings.
  abbrev pub keys : List (K × V) → List K
  keys xs = map (λ b. b.0) xs

  pub In-keys : (k : K) (xs : List (K × V)) → In k (keys xs) → (v : V) × In (k, v) xs
  In-keys k [] h = elim h [ ]
  In-keys k ((j, v) ∷ xs) (here p) = (v, here (ap (λ i. (i, v)) p))
  In-keys k ((j, v) ∷ xs) (there h) = let (w, q) = In-keys k xs h in (w, there q)

  pub In-keys_of : (k : K) (v : V) (xs : List (K × V)) → In (k, v) xs → In k (keys xs)
  In-keys_of k v [] h = elim h [ ]
  In-keys_of k v (b ∷ xs) (here p) = here (ap (λ b. b.0) p)
  In-keys_of k v (b ∷ xs) (there h) = there (In-keys_of k v xs h)

module _ {ℓ} {K : Type 0} {V : Type ℓ} ⦃e : HasEq K⦄ where
  pub remove-IsDistinct : (k : K) (m : Map K V) → IsDistinct m → IsDistinct (remove k m)
  unfolding remove
  remove-IsDistinct k [] d = d
  remove-IsDistinct k ((j, w) ∷ m) d = elim (==_cases j k) [
    | inl p ↦ rw ((e.same_iff j k).1 p) (remove-IsDistinct k m d.1)
    | inr (n, p) ↦ rw p (lookup-remove_ne j k m (λ q. n (sym q)) ∙ d.0, remove-IsDistinct k m d.1)
  ]
