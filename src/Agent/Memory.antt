-- ===== src/Agent/Memory.antt =====
-- crates/pact-agent/src/supervisor/pact_supervisor.rs: `parse_memory_value`. Of the white space that
-- `trim` knows, the model has that of ASCII.
use Prim.Native.Char.{Char, code}
use pact.Base.{
  ℕ, ◌*◌, ◌%◌, ◌^◌, Bool, ◌&&◌, ◌||◌, Option, none, some, String, nat_eq, leb, if◌then◌else◌,
}
use pact.Base.Text.{is_empty}
use pact.Base.Decimal.{parse_unsigned}

abbrev pub is_space : Char → Bool
is_space c = nat_eq (code c) 32 || (leb 9 (code c) && leb (code c) 13)

unfoldable pub trim_start : String → String
trim_start String.[] = String.[]
trim_start (String.◌∷◌ c s) = let rest = trim_start s in if is_space c then rest else String.◌∷◌ c s

unfoldable pub trim_end : String → String
trim_end String.[] = String.[]
trim_end (String.◌∷◌ c s) =
    let rest = trim_end s in if is_empty rest && is_space c then String.[] else String.◌∷◌ c rest

abbrev pub trim : String → String
trim s = trim_end (trim_start s)

-- `strip_suffix` of the character with a code.
unfoldable pub strip_suffix : ℕ → String → Option String
strip_suffix k String.[] = none
strip_suffix k (String.◌∷◌ c String.[]) = if nat_eq (code c) k then some String.[] else none
strip_suffix k (String.◌∷◌ c (String.◌∷◌ d s)) = elim (strip_suffix k (String.◌∷◌ d s)) [
  | none ↦ none
  | some r ↦ some (String.◌∷◌ c r)
]

-- `strip_suffix('G').or_else(|| s.strip_suffix('g'))`, and so for the other letters.
abbrev pub strip_letter : ℕ → ℕ → String → Option String
strip_letter upper lower s = elim (strip_suffix upper s) [
  | some r ↦ some r
  | none ↦ strip_suffix lower s
]

-- `v * multiplier` on a `u64`, which wraps in a release build.
unfoldable pub scaled : ℕ → String → Option ℕ
scaled multiplier num = elim (parse_unsigned (2 ^ 64) (trim num)) [
  | none ↦ none
  | some v ↦ some ((v * multiplier) % 2 ^ 64)
]

unfoldable pub parse_trimmed : String → Option ℕ
parse_trimmed s = if is_empty s then none else elim (strip_letter 71 103 s) [
  | some n ↦ scaled (1024 * 1024 * 1024) n
  | none ↦ elim (strip_letter 77 109 s) [
    | some n ↦ scaled (1024 * 1024) n
    | none ↦ elim (strip_letter 75 107 s) [ some n ↦ scaled 1024 n | none ↦ scaled 1 s ]
  ]
]

unfoldable pub parse_memory_value : String → Option ℕ
parse_memory_value s = parse_trimmed (trim s)
