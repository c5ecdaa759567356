-- ===== src/Base/Decimal.antt =====
-- `to_string` and `parse` of Rust's unsigned numbers in decimal.
use Prim.Native.Nat.{ℕ, zero, suc, ◌+◌, ◌-◌, ◌*◌, ◌/◌, ◌%◌, ◌^◌, ◌<◌}
use Prim.Native.Char.{Char, code}
use Prim.Native.String.{String, [], ◌∷◌, char_at}
use mathlib.Core.Path.{◌≡◌, refl, ap, ◌∙◌}
use mathlib.Core.Bool.{Bool, ◌&&◌}
use mathlib.Core.Option.{Option, none, some}
use mathlib.Core.Logic.{inl, inr, ◌≢◌}
use native.Mathlib.Nat.{pow-suc}
use native.Mathlib.Omega.{arith}
use pact.Base.Tests.{nat_eq, leb, ltb, Bool-cases, nat_eq_iff, if◌then◌else◌}

unfoldable pub digit : ℕ → Char
digit d = char_at "0123456789" d

-- The digits of `n` before those already written. The fuel is at least the number of digits.
unfoldable pub show_from : ℕ → ℕ → String → String
show_from zero n s = s
show_from (suc f) n s =
    let more = show_from f (n / 10) (digit (n % 10) ∷ s) in
    if nat_eq (n / 10) 0 then digit (n % 10) ∷ s else more

-- `to_string` of a u32 or a u64, which has twenty digits at most.
unfoldable pub to_string : ℕ → String
to_string n = show_from 20 n []

abbrev pub is_digit : Char → Bool
is_digit c = leb 48 (code c) && leb (code c) 57

-- The digits left, after a number that was read; below the bound.
unfoldable pub parse_from : ℕ → ℕ → String → Option ℕ
parse_from bound n [] = some n
parse_from bound n (c ∷ s) =
    let next = n * 10 + (code c - 48) in
    let rest = parse_from bound next s in
    if is_digit c then if ltb next bound then rest else none else none

-- `parse`: digits below the bound, at least one, after an optional plus sign.
unfoldable pub parse_unsigned : ℕ → String → Option ℕ
parse_unsigned bound [] = none
parse_unsigned bound (c ∷ []) = parse_from bound 0 (c ∷ [])
parse_unsigned bound (c ∷ d ∷ s) =
    let plain = parse_from bound 0 (c ∷ d ∷ s) in
    let signed = parse_from bound 0 (d ∷ s) in if nat_eq (code c) 43 then signed else plain

code-digit : (d : ℕ) → d < 10 → code (digit d) ≡ 48 + d
unfolding digit
code-digit zero h = refl
code-digit (suc zero) h = refl
code-digit (suc (suc zero)) h = refl
code-digit (suc (suc (suc zero))) h = refl
code-digit (suc (suc (suc (suc zero)))) h = refl
code-digit (suc (suc (suc (suc (suc zero))))) h = refl
code-digit (suc (suc (suc (suc (suc (suc zero)))))) h = refl
code-digit (suc (suc (suc (suc (suc (suc (suc zero))))))) h = refl
code-digit (suc (suc (suc (suc (suc (suc (suc (suc zero)))))))) h = refl
code-digit (suc (suc (suc (suc (suc (suc (suc (suc (suc zero))))))))) h = refl
code-digit (suc (suc (suc (suc (suc (suc (suc (suc (suc (suc d)))))))))) h = absurd (omega arith)

-- A digit that is read after a number `m`.
parse_from-digit :
    (bound m d : ℕ) (s : String)
    → d < 10
    → m * 10 + d < bound
    → parse_from bound m (digit d ∷ s) ≡ parse_from bound (m * 10 + d) s
unfolding parse_from
parse_from-digit bound m d s h k = ground (arith, code-digit d h)

parse_from-show_from :
    (bound f n : ℕ) (s : String)
    → n < 10 ^ f
    → n < bound
    → parse_from bound 0 (show_from f n s) ≡ parse_from bound n s
unfolding show_from
parse_from-show_from bound zero n s h k = let e : n ≡ 0 = omega arith in rw e refl
parse_from-show_from bound (suc f) n s h k = elim (Bool-cases (nat_eq (n / 10) 0)) [
  | inl e ↦
      let small : n / 10 ≡ 0 = (nat_eq_iff _ _).0 e in
      let last : 0 * 10 + n % 10 ≡ n = omega arith in
      rw e (
        parse_from-digit bound 0 (n % 10) s (omega arith) (omega arith)
        ∙ ap (λ m. parse_from bound m s) last)
  | inr e ↦
      let whole : (n / 10) * 10 + n % 10 ≡ n = omega arith in
      let p : 10 ^ suc f ≡ 10 * 10 ^ f = omega (arith, pow-suc 10 f) in
      rw e (
        parse_from-show_from bound f (n / 10) (digit (n % 10) ∷ s) (omega arith) (omega arith)
        ∙ parse_from-digit bound (n / 10) (n % 10) s (omega arith) (omega arith)
        ∙ ap (λ m. parse_from bound m s) whole)
]

-- A text that does not begin with a plus sign.
abbrev IsUnsigned : String → Type 0
IsUnsigned [] = ⊥
IsUnsigned (c ∷ s) = code c ≢ 43

digit-IsUnsigned : (d : ℕ) (s : String) → d < 10 → IsUnsigned (digit d ∷ s)
digit-IsUnsigned d s h e = omega (arith, code-digit d h)

show_from-IsUnsigned : (f n : ℕ) (s : String) → IsUnsigned (show_from (suc f) n s)
unfolding show_from
show_from-IsUnsigned zero n s = elim (Bool-cases (nat_eq (n / 10) 0)) [
  | inl e ↦ rw e (digit-IsUnsigned (n % 10) s (omega arith))
  | inr e ↦ rw e (digit-IsUnsigned (n % 10) s (omega arith))
]
show_from-IsUnsigned (suc f) n s = elim (Bool-cases (nat_eq (n / 10) 0)) [
  | inl e ↦ rw e (digit-IsUnsigned (n % 10) s (omega arith))
  | inr e ↦ rw e (show_from-IsUnsigned f (n / 10) (digit (n % 10) ∷ s))
]

parse_unsigned-IsUnsigned :
    (bound : ℕ) (s : String) → IsUnsigned s → parse_unsigned bound s ≡ parse_from bound 0 s
unfolding parse_unsigned
parse_unsigned-IsUnsigned bound [] h = elim h [ ]
parse_unsigned-IsUnsigned bound (c ∷ []) h = refl
parse_unsigned-IsUnsigned bound (c ∷ d ∷ s) h = ground arith

-- A number below the bound is read back from its digits.
pub parse_unsigned-to_string :
    (bound n : ℕ) → n < 10 ^ 20 → n < bound → parse_unsigned bound (to_string n) ≡ some n
unfolding to_string parse_from
parse_unsigned-to_string bound n h k =
    parse_unsigned-IsUnsigned bound _ (show_from-IsUnsigned 19 n [])
    ∙ parse_from-show_from bound 20 n [] h k

parse_from_lt :
    (bound n : ℕ) (s : String) {m : ℕ} → parse_from bound n s ≡ some m → n < bound → m < bound
unfolding parse_from
parse_from_lt bound n [] h k = ground arith
parse_from_lt bound n (c ∷ s) h k = elim (Bool-cases (is_digit c)) [
  | inr p ↦ cc (rw p at h)
  | inl p ↦ elim (Bool-cases (ltb (n * 10 + (code c - 48)) bound)) [
    | inr q ↦ cc (rw q at (rw p at h))
    | inl q ↦ parse_from_lt bound (n * 10 + (code c - 48)) s (rw q at (rw p at h)) (ground arith)
  ]
]

-- What is read is below the bound.
pub parse_unsigned_lt :
    (bound : ℕ) (s : String) {m : ℕ} → 0 < bound → parse_unsigned bound s ≡ some m → m < bound
unfolding parse_unsigned
parse_unsigned_lt bound [] k h = cc
parse_unsigned_lt bound (c ∷ []) k h = parse_from_lt bound 0 (c ∷ []) h k
parse_unsigned_lt bound (c ∷ d ∷ s) k h = elim (Bool-cases (nat_eq (code c) 43)) [
  | inl p ↦ parse_from_lt bound 0 (d ∷ s) (rw p at h) k
  | inr p ↦ parse_from_lt bound 0 (c ∷ d ∷ s) (rw p at h) k
]
