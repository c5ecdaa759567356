-- ===== src/Base/Text.antt =====
-- Rust's `str` methods that the program calls, where the native operations do not serve: by clauses
-- on the characters. Lower case is that of ASCII, the alphabet of hardware addresses and serials.
use Prim.Native.Nat.{◌-◌}
use Prim.Native.Char.{Char, code}
use Prim.Native.String.{String, [], ◌∷◌, ◌++◌, char_at}
use Prim.Native.String.append
use mathlib.Core.Path.{◌≡◌, refl}
use mathlib.Core.Bool.{Bool, true, false, ◌&&◌}
use mathlib.Core.Option.{Option, none, some}
use mathlib.Core.Logic.{inl, inr, ◌⊎◌, ◌≢◌}
use text.Mathlib.TextEquality.{Char-path}
use pact.Base.Tests.{nat_eq, nat_eq_iff, leb, Bool-cases, if◌then◌else◌}

abbrev pub is_empty : String → Bool
is_empty [] = true
is_empty (c ∷ s) = false

-- `s.strip_prefix(p)`, the prefix first.
unfoldable pub strip_prefix : String → String → Option String
strip_prefix [] s = some s
strip_prefix (c ∷ p) [] = none
strip_prefix (c ∷ p) (d ∷ s) =
    let rest = strip_prefix p s in if nat_eq (code c) (code d) then rest else none

-- `s.starts_with(p)`, the prefix first.
unfoldable pub starts_with : String → String → Bool
starts_with p s = elim (strip_prefix p s) [ none ↦ false | some _ ↦ true ]

unfoldable pub lowercase_char : Char → Char
lowercase_char c =
    if leb 65 (code c) && leb (code c) 90
    then char_at "abcdefghijklmnopqrstuvwxyz" (code c - 65)
    else c

unfoldable pub to_lowercase : String → String
unfolding lowercase_char
to_lowercase [] = []
to_lowercase (c ∷ s) = lowercase_char c ∷ to_lowercase s

pub strip_prefix-append : (p s : String) → strip_prefix p (p ++ s) ≡ some s
unfolding strip_prefix
strip_prefix-append [] s = rw append.nil
strip_prefix-append (c ∷ p) s =
    rw append.cons (rw ((nat_eq_iff (code c) (code c)).1 refl) (strip_prefix-append p s))

-- What is left behind the prefix makes the whole again.
pub strip_prefix-some : (p s r : String) → strip_prefix p s ≡ some r → s ≡ p ++ r
unfolding strip_prefix
strip_prefix-some [] s r h = rw append.nil (cc)
strip_prefix-some (c ∷ p) [] r h = cc
strip_prefix-some (c ∷ p) (d ∷ s) r h = elim (Bool-cases (nat_eq (code c) (code d))) [
  | inl e ↦
      rw append.cons
        (cc (Char-path c d ((nat_eq_iff _ _).0 e), strip_prefix-some p s r (rw e at h)))
  | inr e ↦ cc (rw e at h)
]

-- Of two prefixes of one text, one is a prefix of the other.
pub strip_prefix_two :
    (p q s : String) {a b : String}
    → strip_prefix p s ≡ some a
    → strip_prefix q s ≡ some b
    → (strip_prefix p q ≢ none) ⊎ (strip_prefix q p ≢ none)
unfolding strip_prefix
strip_prefix_two [] q s h k = inl (λ e. cc)
strip_prefix_two (c ∷ p) [] s h k = inr (λ e. cc)
strip_prefix_two (c ∷ p) (d ∷ q) [] h k = cc
strip_prefix_two (c ∷ p) (d ∷ q) (x ∷ s) h k = elim (Bool-cases (nat_eq (code c) (code x))) [
  | inr e ↦ cc (rw e at h)
  | inl e ↦ elim (Bool-cases (nat_eq (code d) (code x))) [
    | inr e' ↦ cc (rw e' at k)
    | inl e' ↦
        let e1 : code c ≡ code x = (nat_eq_iff _ _).0 e in
        let e2 : code d ≡ code x = (nat_eq_iff _ _).0 e' in
        let cd : nat_eq (code c) (code d) ≡ true = (nat_eq_iff _ _).1 (cc) in
        let dc : nat_eq (code d) (code c) ≡ true = (nat_eq_iff _ _).1 (cc) in
        rw cd (rw dc (strip_prefix_two p q s (rw e at h) (rw e' at k)))
  ]
]
