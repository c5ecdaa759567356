-- ===== src/Agent/Arguments/Detours.antt =====
-- crates/pact-agent/src/shell/whitelist.rs: a path is judged by where it leads.
use Prim.Native.String.{◌++◌}
use Prim.Native.String.append
use Prim.Native.Char.{Char}
use text.Mathlib.TextLemmas.{append_assoc}
use pact.Base.{
  ◌≡◌, refl, sym, ◌∙◌, ap, ◌⊎◌, ◌≢◌, inl, inr, String, String_eq, Bool, true, false, Option, none,
  some, List, [], ◌∷◌, ◌++◌ as ◌+++◌, ==_false, any, contains, ◌&&◌, if◌then◌else◌,
}
use pact.Base.Text.{is_empty, starts_with}
use pact.Base.Parts.{split, split-append, join, Begins, starts_with-Begins}
use pact.Agent.Arguments.{
  Denial, blocked_paths, sensitive_prefixes, file_readers, is_blocked, pop, visit, walk, normalized,
  is_path_like, judge_path, judge_arg, validate_args, is_accepted,
}

-- The name of a file or folder.
pub record IsName (part : String) : Type 0 where
  pub not_empty : part ≢ ""
  pub not_here : part ≢ "."
  pub not_up : part ≢ ".."

-- Parts that lead back to where they begin.
pub data Detour : List String → Type 0 where
  finished : Detour []
  empty : {ps : List String} → Detour ps → Detour ("" ∷ ps)
  stay : {ps : List String} → Detour ps → Detour ("." ∷ ps)
  around :
      (x : String) (ps qs : List String) {parts : List String}
      → IsName x
      → Detour ps
      → Detour qs
      → parts ≡ x ∷ (ps +++ (".." ∷ qs))
      → Detour parts

walk-append : (st xs ys : List String) → walk st (xs +++ ys) ≡ walk (walk st xs) ys
unfolding walk
walk-append st [] ys = refl
walk-append st (x ∷ xs) ys = walk-append (visit st x) xs ys

pop-append : (xs : List String) (x : String) → pop (xs +++ (x ∷ [])) ≡ xs
unfolding pop
pop-append [] x = refl
pop-append (y ∷ []) x = refl
pop-append (y ∷ z ∷ zs) x = ap (λ t. y ∷ t) (pop-append (z ∷ zs) x)

is_empty-false : (s : String) → s ≢ "" → is_empty s ≡ false
is_empty-false String.[] h = absurd (h refl)
is_empty-false (String.◌∷◌ c s) h = refl

visit-IsName : (st : List String) (x : String) → IsName x → visit st x ≡ st +++ (x ∷ [])
unfolding visit
visit-IsName st x n =
    rw (==_false x ".." n.not_up)
      (rw (==_false x "." n.not_here) (rw (is_empty-false x n.not_empty) refl))

walk-Detour : {ps : List String} (st : List String) → Detour ps → walk st ps ≡ st
unfolding walk visit
walk-Detour st finished = refl
walk-Detour st (empty d) = walk-Detour st d
walk-Detour st (stay d) = walk-Detour st d
walk-Detour st (around x ps qs n d e same) = rw same (
    ap (λ t. walk t (ps +++ (".." ∷ qs))) (unfold visit in visit-IsName st x n)
    ∙ walk-append (st +++ (x ∷ [])) ps (".." ∷ qs)
    ∙ ap (λ t. walk t (".." ∷ qs)) (walk-Detour (st +++ (x ∷ [])) d)
    ∙ ap (λ t. walk t qs) (pop-append st x)
    ∙ walk-Detour st e)

slash : Char
slash = "/"

slash-append : (b : String) → "/" ++ b ≡ String.◌∷◌ slash b
unfolding slash
slash-append b = append.cons "/" String.[] b ∙ ap (λ t. String.◌∷◌ "/" t) (append.nil b)

split-slash : (a b : String) → split 47 (a ++ "/" ++ b) ≡ split 47 a +++ split 47 b
split-slash a b = rw (slash-append b) (split-append 47 a slash b (unfold slash in refl))

-- A detour inside a path does not change where it leads.
walk-split-Detour :
    (a d b : String)
    → Detour (split 47 d)
    → walk [] (split 47 (a ++ "/" ++ d ++ "/" ++ b)) ≡ walk [] (split 47 (a ++ "/" ++ b))
walk-split-Detour a d b detour = rw (split-slash a (d ++ "/" ++ b)) (
    rw (split-slash d b) (
      rw (split-slash a b) (
        walk-append [] (split 47 a) (split 47 d +++ split 47 b)
        ∙ walk-append (walk [] (split 47 a)) (split 47 d) (split 47 b)
        ∙ ap (λ t. walk t (split 47 b)) (walk-Detour (walk [] (split 47 a)) detour)
        ∙ sym (walk-append [] (split 47 a) (split 47 b)))))

-- A text to the left of a slash in an absolute path.
abbrev pub IsRooted : String → Type 0
IsRooted a = (a ≡ "") ⊎ Begins "/" a

rooted : (a b : String) → IsRooted a → is_path_like (a ++ "/" ++ b) ≡ true
unfolding is_path_like
rooted a b h =
    rw
      ((starts_with-Begins "/" (a ++ "/" ++ b)).1 (elim h [
        | inl e ↦ (b, rw e (append.nil ("/" ++ b)))
        | inr (t, e) ↦ (t ++ "/" ++ b, rw e (append_assoc "/" t ("/" ++ b)))
      ]))
      refl

-- Two arguments that lead to one path are accepted alike.
judge_arg_alike :
    (command arg arg' : String)
    → is_path_like arg ≡ true
    → is_path_like arg' ≡ true
    → normalized arg ≡ normalized arg'
    → is_accepted (judge_arg command arg) ≡ is_accepted (judge_arg command arg')
unfolding judge_arg judge_path
judge_arg_alike command arg arg' h k e =
    rw (h, judge_arg)
      (rw (k, judge_arg)
        (rw e (
          alike (any (is_blocked (normalized arg')) blocked_paths) (
            contains file_readers command
            && any (λ p. starts_with p (normalized arg')) sensitive_prefixes))))
  where
    alike :
        (b c : Bool)
        → is_accepted (
            if b
            then some (Denial.cannot_access command arg)
            else if c
            then some (Denial.cannot_read command arg)
            else none)
          ≡ is_accepted (
              if b
              then some (Denial.cannot_access command arg')
              else if c
              then some (Denial.cannot_read command arg')
              else none)
    alike true c = refl
    alike false true = refl
    alike false false = refl

-- Inside an absolute path, a detour (empty parts, single dots, and folders that are entered and left
-- again, in any nesting) does not change whether the arguments are accepted.
pub validate_args-Detour :
    (command a d b : String) (args : List String)
    → IsRooted a
    → Detour (split 47 d)
    → is_accepted (validate_args command ((a ++ "/" ++ d ++ "/" ++ b) ∷ args))
      ≡ is_accepted (validate_args command ((a ++ "/" ++ b) ∷ args))
unfolding validate_args
validate_args-Detour command a d b args r detour =
    let same =
      judge_arg_alike command (a ++ "/" ++ d ++ "/" ++ b) (a ++ "/" ++ b)
        (rooted a (d ++ "/" ++ b) r) (rooted a b r)
        (unfold normalized in ap (λ t. "/" ++ join "/" t) (walk-split-Detour a d b detour)) in
    first (judge_arg command (a ++ "/" ++ d ++ "/" ++ b)) (judge_arg command (a ++ "/" ++ b)) same
  where
    first :
        (o o' : Option Denial)
        → is_accepted o ≡ is_accepted o'
        → is_accepted (elim o [ some x ↦ some x | none ↦ validate_args command args ])
          ≡ is_accepted (elim o' [ some x ↦ some x | none ↦ validate_args command args ])
    first none none h = refl
    first (some x) (some y) h = refl
    first none (some y) h = cc
    first (some x) none h = cc
