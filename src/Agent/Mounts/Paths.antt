-- ===== src/Agent/Mounts/Paths.antt =====
-- crates/pact-agent/src/handoff/mounts.rs: the name of an image's mount point, from its path.
use Prim.Native.Char.{Char, code}
use Prim.Native.String.{String, [], ◌∷◌}
use pact.Base.{ℕ, zero, suc, Bool, true, false, not, if◌then◌else◌, nat_eq}
use pact.Base.Text.{starts_with}

-- `rsplit('/').next()`: what follows the last slash, or all of the text. The first argument is what
-- follows the last slash so far.
unfoldable pub after_last_slash : String → String → String
after_last_slash best [] = best
after_last_slash best (c ∷ s) = after_last_slash (if nat_eq (code c) 47 then s else best) s

abbrev pub put : Bool → Char → String → String
put true c s = c ∷ s
put false c s = s

-- `replace(".sqfs", "")`, from left to right. The number is how many characters of a match are left.
unfoldable pub without_sqfs : ℕ → String → String
without_sqfs n [] = []
without_sqfs zero (c ∷ s) =
    let found = starts_with ".sqfs" (c ∷ s) in
    put (not found) c (without_sqfs (if found then 4 else 0) s)
without_sqfs (suc n) (c ∷ s) = without_sqfs n s

unfoldable pub image_name : String → String
unfolding without_sqfs after_last_slash
image_name path = without_sqfs 0 (after_last_slash path path)
