-- ===== src/Agent/Arguments/Blocking.antt =====
-- crates/pact-agent/src/shell/whitelist.rs: which arguments are accepted.
use Prim.Native.String.append
use text.Mathlib.TextLemmas.{append-nil}
use pact.Base.{
  ◌≡◌, refl, sym, ◌∙◌, ◌⊎◌, ◌↔◌, inl, inr, String, String_eq, Bool, true, false, ◌||◌, ◌&&◌, none,
  some, List, [], ◌∷◌, ◌==◌, any, contains, All, Bool-cases, Option-cases, ==_true, if◌then◌else◌,
}
use pact.Base.Text.{starts_with}
use pact.Base.Parts.{Begins, Holds, starts_with-Begins, contains_text-Holds, contains_text}
use pact.Agent.Arguments.{
  Denial, blocked_paths, sensitive_prefixes, file_readers, normalized, is_blocked, is_path_like,
  judge_path, judge_arg, validate_args,
}

-- No blocked text stands in the path, and if the command reads files, the path does not begin with a
-- sensitive prefix.
pub record IsHarmless (command path : String) : Type 0 where
  pub unblocked : All (λ p. ¬ Holds p path) blocked_paths
  pub unread :
      (contains file_readers command ≡ false) ⊎ All (λ p. ¬ Begins p path) sensitive_prefixes

-- An argument that is no path to the code, or whose path is harmless once resolved.
abbrev pub IsPermitted : String → String → Type 0
IsPermitted command arg =
    ((¬ Begins "/" arg) × (¬ Holds ".." arg)) ⊎ IsHarmless command (normalized arg)

module _ {A : Type 0} (p : A → Bool) (P : A → Type 0) (each : (a : A) → (p a ≡ true) ↔ P a) where
  any-All : (xs : List A) → (any p xs ≡ false) ↔ All (λ a. ¬ P a) xs
  any-All [] = (λ h. tt, λ h. refl)
  any-All (x ∷ xs) =
      let (down, up) = any-All xs in
      elim (Bool-cases (p x)) [
        | inl q ↦ (λ h. cc (rw q at h), λ h. absurd (h.0 ((each x).0 q)))
        | inr q ↦ rw q (λ h. (λ r. cc ((each x).1 r, q), down h), λ h. up h.1)
      ]

or_true : (a b c : Bool) → (a || b || c) ≡ true → (a ≡ true) ⊎ (b ≡ true) ⊎ (c ≡ true)
or_true true b c h = inl refl
or_true false true c h = inr (inl refl)
or_true false false c h = inr (inr h)

last_true : (a b c : Bool) → c ≡ true → (a || b || c) ≡ true
last_true true b c h = refl
last_true false true c h = refl
last_true false false c h = h

-- Of the three tests the last includes the others.
is_blocked-Holds : (path p : String) → (is_blocked path p ≡ true) ↔ Holds p path
unfolding is_blocked
is_blocked-Holds path p = (
  λ h. elim (or_true (path == p) (starts_with p path) (contains_text p path) h) [
    | inl e ↦ ("", "", rw append.nil (==_true path p e ∙ sym (append-nil p)))
    | inr (inl e) ↦ let (b, q) = (starts_with-Begins p path).0 e in ("", b, rw append.nil q)
    | inr (inr e) ↦ (contains_text-Holds p path).0 e
  ],
  λ h. last_true (path == p) (starts_with p path) _ ((contains_text-Holds p path).1 h),
)

-- The two tests, whatever they test.
verdict_iff :
    {A : Type 0} (x y : A) (b r s : Bool) {B S : Type 0}
    → (b ≡ false) ↔ B
    → (s ≡ false) ↔ S
    → ((if b then some x else if r && s then some y else none) ≡ none) ↔ (B × ((r ≡ false) ⊎ S))
verdict_iff x y true r s blocked sensitive = (λ h. cc, λ h. cc (blocked.1 h.0))
verdict_iff x y false false s blocked sensitive = (λ h. (blocked.0 refl, inl refl), λ h. refl)
verdict_iff x y false true false blocked sensitive =
    (λ h. (blocked.0 refl, inr (sensitive.0 refl)), λ h. refl)
verdict_iff x y false true true blocked sensitive =
    (λ h. cc, λ h. elim h.1 [ inl e ↦ cc e | inr e ↦ cc (sensitive.1 e) ])

judge_path_iff :
    (command arg path : String) → (judge_path command arg path ≡ none) ↔ IsHarmless command path
unfolding judge_path
judge_path_iff command arg path =
    let (towards, back) =
      verdict_iff (Denial.cannot_access command arg) (Denial.cannot_read command arg)
        (any (is_blocked path) blocked_paths) (contains file_readers command)
        (any (λ p. starts_with p path) sensitive_prefixes)
        (any-All (is_blocked path) (λ p. Holds p path) (λ p. is_blocked-Holds path p) blocked_paths)
        (any-All (λ p. starts_with p path) (λ p. Begins p path) (λ p. starts_with-Begins p path)
          sensitive_prefixes) in
    (
      λ h. let (u, r) = towards h in record { unblocked = u; unread = r },
      λ h. back (h.unblocked, h.unread),
    )

is_path_like-cases :
    (arg : String)
    → (((¬ Begins "/" arg) × (¬ Holds ".." arg)) × (is_path_like arg ≡ false))
      ⊎ ((Begins "/" arg ⊎ Holds ".." arg) × (is_path_like arg ≡ true))
unfolding is_path_like
is_path_like-cases arg = elim (Bool-cases (starts_with "/" arg)) [
  | inl p ↦ inr (inl ((starts_with-Begins "/" arg).0 p), rw p refl)
  | inr p ↦ elim (Bool-cases (contains_text ".." arg)) [
    | inl q ↦ inr (inr ((contains_text-Holds ".." arg).0 q), rw p q)
    | inr q ↦ inl (
      (
        λ b. cc (p, (starts_with-Begins "/" arg).1 b),
        λ h. cc (q, (contains_text-Holds ".." arg).1 h),
      ),
      rw p q,
    )
  ]
]

judge_arg_iff : (command arg : String) → (judge_arg command arg ≡ none) ↔ IsPermitted command arg
unfolding judge_arg
judge_arg_iff command arg =
    let (towards, back) = judge_path_iff command arg (normalized arg) in
    elim (is_path_like-cases arg) [
      | inl (no_path, p) ↦ rw (p, judge_arg) (λ h. inl no_path, λ h. refl)
      | inr (path, p) ↦
          rw (p, judge_arg)
            (
              λ h. inr (towards h),
              λ o. elim o [
                | inl (a, b) ↦ elim path [ inl x ↦ absurd (a x) | inr x ↦ absurd (b x) ]
                | inr h ↦ back h
              ],
            )
    ]

-- A command with its arguments is accepted if and only if each argument either has no slash at its
-- front and no two dots in a row, or leads, once resolved, to a path in which no blocked text stands,
-- and which does not begin with a sensitive prefix if the command is one of those that read files.
pub validate_args_iff :
    (command : String) (args : List String)
    → (validate_args command args ≡ none) ↔ All (IsPermitted command) args
unfolding validate_args
validate_args_iff command [] = (λ h. tt, λ h. refl)
validate_args_iff command (arg ∷ args) =
    let (towards, back) = judge_arg_iff command arg in
    let (down, up) = validate_args_iff command args in
    elim (Option-cases (judge_arg command arg)) [
      | inl e ↦ rw (e, validate_args) (λ h. (towards e, down h), λ h. up h.1)
      | inr (d, e) ↦ rw (e, validate_args) (λ h. cc, λ h. cc (e, back h.0))
    ]
