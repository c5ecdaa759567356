-- ===== src/Base/BTree.antt =====
-- `BTreeMap<u64, _>`: an association list that `insert` keeps in the order of its keys.
use Prim.Native.Nat.{ℕ}
use mathlib.Core.Path.{◌≡◌, sym, subst, ◌∙◌}
use mathlib.Core.Logic.{◌≢◌, inl, inr}
use mathlib.Core.Option.{some}
use mathlib.Core.List.{[], ◌∷◌}
use pact.Base.Tests.{ltb, ℕ_eq, ◌==◌, ==_self, ==_false, ==_cases, Bool-cases, if◌then◌else◌}
use pact.Base.Map.{Map, Each, lookup}

module _ {ℓ} {V : Type ℓ} where
  unfoldable pub insert : ℕ → V → Map ℕ V → Map ℕ V
  insert k v [] = (k, v) ∷ []
  insert k v ((j, w) ∷ m) =
      if k == j then (k, v) ∷ m else if ltb k j then (k, v) ∷ (j, w) ∷ m else (j, w) ∷ insert k v m

  pub lookup-insert_self : (k : ℕ) (v : V) (m : Map ℕ V) → lookup k (insert k v m) ≡ some v
  unfolding lookup insert
  lookup-insert_self k v [] = rw (==_self k)
  lookup-insert_self k v ((j, w) ∷ m) = elim (==_cases k j) [
    | inl p ↦ rw p (rw (==_self j) (rw (==_self j)))
    | inr (p, q) ↦ rw q (elim (Bool-cases (ltb k j)) [
      | inl r ↦ rw r (rw (==_self k))
      | inr r ↦ rw r (rw (==_false j k (λ e. p (sym e))) (lookup-insert_self k v m))
    ])
  ]

  pub lookup-insert_ne :
      (j k : ℕ) (v : V) (m : Map ℕ V) → k ≢ j → lookup j (insert k v m) ≡ lookup j m
  unfolding lookup insert
  lookup-insert_ne j k v [] h = rw (==_false k j h)
  lookup-insert_ne j k v ((i, w) ∷ m) h = elim (==_cases k i) [
    | inl p ↦ rw (← p) (rw (==_self k) (rw (==_false k j h)))
    | inr (p, q) ↦ rw q (elim (Bool-cases (ltb k i)) [
      | inl r ↦ rw r (rw (==_false k j h))
      | inr r ↦ rw r (rw (lookup-insert_ne j k v m h))
    ])
  ]

  pub Each-insert {κ} :
      (P : ℕ → V → Type κ) (k : ℕ) (v : V) (m : Map ℕ V) → Each P m → P k v → Each P (insert k v m)
  Each-insert P k v m h p j w found = elim (==_cases k j) [
    | inl q ↦ subst (λ i. P i w) q (subst (P k) (value q) p)
    | inr (q, _) ↦ h j w (sym (lookup-insert_ne j k v m q) ∙ found)
  ]
    where
      value : k ≡ j → v ≡ w
      value q = cc (lookup-insert_self k v m, q, found)
