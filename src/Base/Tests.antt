-- ===== src/Base/Tests.antt =====
-- Boolean tests, equality of keys as an interface, and the conditional.
use Prim.Native.Nat.{ℕ, ◌≤◌, ◌<◌, compare, Ordering}
use Prim.Native.String.{String}
use mathlib.Core.Path.{◌≡◌, refl}
use mathlib.Core.Logic.{◌↔◌, ◌≢◌, ◌⊎◌, inl, inr}
use mathlib.Core.Bool.{Bool, true, false}
use mathlib.Core.Option.{Option, none, some}
use native.Mathlib.Omega.{arith}
use text.Mathlib.Text.{◌==◌ as str_eq}
use text.Mathlib.TextEquality.{eq_iff}

abbrev pub ltb : ℕ → ℕ → Bool
ltb a b = elim (compare a b) [ Ordering.lt ↦ true | _ ↦ false ]

abbrev pub leb : ℕ → ℕ → Bool
leb a b = elim (compare a b) [ Ordering.gt ↦ false | _ ↦ true ]

abbrev pub nat_eq : ℕ → ℕ → Bool
nat_eq a b = elim (compare a b) [ Ordering.eq ↦ true | _ ↦ false ]

infix 1 if◌then◌else◌
abbrev pub if◌then◌else◌ {ℓ} : {A : Type ℓ} → Bool → A → A → A
if true then x else y = x
if false then x else y = y

pub ltb→lt : (a b : ℕ) → ltb a b ≡ true → a < b
ltb→lt a b h = ground arith

pub lt→ltb : (a b : ℕ) → a < b → ltb a b ≡ true
lt→ltb a b h = ground arith

pub leb→le : (a b : ℕ) → leb a b ≡ true → a ≤ b
leb→le a b h = ground arith

pub nat_eq_iff : (a b : ℕ) → (nat_eq a b ≡ true) ↔ (a ≡ b)
nat_eq_iff a b = ground arith

-- To split on a computed value and keep the equation.
pub Bool-cases : (b : Bool) → (b ≡ true) ⊎ (b ≡ false)
Bool-cases true = inl refl
Bool-cases false = inr refl

pub Option-cases {ℓ} : {A : Type ℓ} (o : Option A) → (o ≡ none) ⊎ ((a : A) × (o ≡ some a))
Option-cases none = inl refl
Option-cases (some a) = inr (a, refl)

-- Rust's `Eq` for the types that the program compares and uses as keys.
pub record HasEq {ℓ} (A : Type ℓ) : Type ℓ where
  pub same : A → A → Bool
  pub same_iff : (a b : A) → (same a b ≡ true) ↔ (a ≡ b)

infix 50 ◌==◌
abbrev pub ◌==◌ {ℓ} : {A : Type ℓ} ⦃e : HasEq A⦄ → A → A → Bool
◌==◌ ⦃e⦄ = e.same

instance abbrev pub ℕ_eq : HasEq ℕ
ℕ_eq = record { same = nat_eq; same_iff = nat_eq_iff }

instance abbrev pub String_eq : HasEq String
String_eq = record { same = str_eq; same_iff = eq_iff }

module _ {ℓ} {A : Type ℓ} ⦃e : HasEq A⦄ where
  pub ==_self : (a : A) → (a == a) ≡ true
  ==_self a = (e.same_iff a a).1 refl

  pub ==_true : (a b : A) → (a == b) ≡ true → a ≡ b
  ==_true a b h = (e.same_iff a b).0 h

  pub ==_false : (a b : A) → a ≢ b → (a == b) ≡ false
  ==_false a b h = elim (Bool-cases (a == b)) [
    | inl p ↦ absurd (h ((e.same_iff a b).0 p))
    | inr p ↦ p
  ]

  pub ne_of_==_false : (a b : A) → (a == b) ≡ false → a ≢ b
  ne_of_==_false a b h p = cc (h, (e.same_iff a b).1 p)

  -- Equal, or different with the test known.
  pub ==_cases : (a b : A) → (a ≡ b) ⊎ ((a ≢ b) × ((a == b) ≡ false))
  ==_cases a b = elim (Bool-cases (a == b)) [
    | inl p ↦ inl ((e.same_iff a b).0 p)
    | inr p ↦ inr (ne_of_==_false a b p, p)
  ]
