-- ===== src/Agent/Arguments.antt =====
-- crates/pact-agent/src/shell/whitelist.rs: `validate_args`, which keeps commands away from
-- sensitive paths.
pub mod Blocking
pub mod Detours
use Prim.Native.String.{◌++◌}
use pact.Base.{
  ℕ, String, String_eq, Bool, true, false, not, ◌&&◌, ◌||◌, Option, none, some, List, [], ◌∷◌,
  ◌++◌ as ◌+++◌, ◌==◌, any, contains, if◌then◌else◌,
}
use pact.Base.Text.{is_empty, starts_with}
use pact.Base.Parts.{contains_text, split, join}

abbrev pub blocked_paths : List String
blocked_paths =
    "/etc/shadow" ∷ "/etc/gshadow" ∷ "/etc/master.passwd" ∷ "/root/" ∷ "/.ssh/"
    ∷ "/etc/ssl/private/" ∷ "/etc/pact/ca/" ∷ "/run/pact/ca/" ∷ []

abbrev pub sensitive_prefixes : List String
sensitive_prefixes = "/etc/shadow" ∷ "/etc/gshadow" ∷ "/root" ∷ []

abbrev pub file_readers : List String
file_readers =
    "cat" ∷ "head" ∷ "tail" ∷ "grep" ∷ "less" ∷ "diff" ∷ "wc" ∷ "file" ∷ "md5sum" ∷ "sha256sum"
    ∷ "stat" ∷ []

-- The two messages, with the command and the argument that they name.
pub data Denial : Type 0 where
  cannot_access cannot_read : String → String → Denial

-- `components.pop()`; the last component stands last.
unfoldable pub pop : List String → List String
pop [] = []
pop (x ∷ []) = []
pop (x ∷ y ∷ ys) = x ∷ pop (y ∷ ys)

-- The body of the loop over the parts.
unfoldable pub visit : List String → String → List String
visit components part =
    if part == ".."
    then pop components
    else if part == "." || is_empty part
    then components
    else components +++ part ∷ []

unfoldable pub walk : List String → List String → List String
walk components [] = components
walk components (part ∷ parts) = walk (visit components part) parts

-- The slash is number 47.
unfoldable pub normalized : String → String
normalized arg = "/" ++ join "/" (walk [] (split 47 arg))

-- `normalized == *blocked || normalized.starts_with(blocked) || normalized.contains(blocked)`.
unfoldable pub is_blocked : String → String → Bool
is_blocked path blocked = path == blocked || starts_with blocked path || contains_text blocked path

unfoldable pub is_path_like : String → Bool
is_path_like arg = starts_with "/" arg || contains_text ".." arg

unfoldable pub judge_path : String → String → String → Option Denial
judge_path command arg path =
    if any (is_blocked path) blocked_paths
    then some (Denial.cannot_access command arg)
    else if contains file_readers command && any (λ p. starts_with p path) sensitive_prefixes
    then some (Denial.cannot_read command arg)
    else none

unfoldable pub judge_arg : String → String → Option Denial
judge_arg command arg = if is_path_like arg then judge_path command arg (normalized arg) else none

-- `none` is `Ok(())`.
unfoldable pub validate_args : String → List String → Option Denial
validate_args command [] = none
validate_args command (arg ∷ args) = elim (judge_arg command arg) [
  | some denial ↦ some denial
  | none ↦ validate_args command args
]

-- `is_ok()`.
abbrev pub is_accepted : Option Denial → Bool
is_accepted none = true
is_accepted (some d) = false
