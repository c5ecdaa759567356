-- ===== src/Base/Parts.antt =====
-- `contains`, `split` and `join` of Rust's `str`, by clauses on the characters.
use Prim.Native.Char.{Char, code}
use Prim.Native.String.{String, [], ◌∷◌, ◌++◌}
use Prim.Native.String.append
use Prim.Native.Nat.{ℕ}
use mathlib.Core.Path.{◌≡◌, refl, sym, ap, ◌∙◌}
use mathlib.Core.Bool.{Bool, true, ◌||◌}
use mathlib.Core.Logic.{inl, inr, ◌↔◌}
use mathlib.Core.List.{List, ◌++◌ as ◌+++◌}
use text.Mathlib.TextEquality.{Char-path}
use pact.Base.Tests.{nat_eq, nat_eq_iff, Bool-cases, Option-cases, if◌then◌else◌}
use pact.Base.Text.{is_empty, strip_prefix, starts_with, strip_prefix-append, strip_prefix-some}

-- `s.contains(p)`, the text to look for first.
unfoldable pub contains_text : String → String → Bool
contains_text p [] = is_empty p
contains_text p (c ∷ s) = starts_with p (c ∷ s) || contains_text p s

push_front : Char → List String → List String
push_front c List.[] = List.◌∷◌ (c ∷ []) List.[]
push_front c (List.◌∷◌ w ws) = List.◌∷◌ (c ∷ w) ws

-- `s.split(sep)`, the separator's code first.
unfoldable pub split : ℕ → String → List String
unfolding push_front
split sep [] = List.◌∷◌ [] List.[]
split sep (c ∷ s) =
    let rest = split sep s in if nat_eq (code c) sep then List.◌∷◌ [] rest else push_front c rest

unfoldable pub join : String → List String → String
join sep List.[] = []
join sep (List.◌∷◌ w List.[]) = w
join sep (List.◌∷◌ w (List.◌∷◌ v ws)) = w ++ sep ++ join sep (List.◌∷◌ v ws)

-- `s` begins with `p`; `s` has `p` somewhere.
abbrev pub Begins : String → String → Type 0
Begins p s = (b : String) × (s ≡ p ++ b)

abbrev pub Holds : String → String → Type 0
Holds p s = (a : String) × (b : String) × (s ≡ a ++ p ++ b)

pub starts_with-Begins : (p s : String) → (starts_with p s ≡ true) ↔ Begins p s
unfolding starts_with
starts_with-Begins p s = (
  λ h. elim (Option-cases (strip_prefix p s)) [
    | inl e ↦ cc (rw (e, starts_with) at h)
    | inr (b, e) ↦ (b, strip_prefix-some p s b e)
  ],
  λ (b, e). rw e (rw (strip_prefix-append p b, starts_with) refl),
)

starts_with-append : (p b : String) → starts_with p (p ++ b) ≡ true
starts_with-append p b = (starts_with-Begins p (p ++ b)).1 (b, refl)

contains_text-append : (a p b : String) → contains_text p (a ++ p ++ b) ≡ true
unfolding contains_text starts_with strip_prefix
contains_text-append [] [] [] = refl
contains_text-append [] [] (c ∷ b) = rw append.nil (rw append.nil refl)
contains_text-append [] (d ∷ p) b =
    rw append.nil (rw append.cons (cc (rw append.cons at (starts_with-append (d ∷ p) b))))
contains_text-append (c ∷ a) p b =
    rw append.cons (elim (Bool-cases (starts_with p (c ∷ (a ++ p ++ b)))) [
      | inl q ↦ rw q refl
      | inr q ↦ rw q (contains_text-append a p b)
    ])

contains_text-found : (p s : String) → contains_text p s ≡ true → Holds p s
unfolding contains_text
contains_text-found [] [] h = ([], [], rw append.nil (rw append.nil refl))
contains_text-found (d ∷ p) [] h = cc
contains_text-found p (c ∷ s) h = elim (Bool-cases (starts_with p (c ∷ s))) [
  | inl q ↦ let (b, e) = (starts_with-Begins p (c ∷ s)).0 q in ([], b, rw append.nil e)
  | inr q ↦
      let (a, b, e) = contains_text-found p s (rw q at h) in
      (c ∷ a, b, rw append.cons (ap (λ t. c ∷ t) e))
]

pub contains_text-Holds : (p s : String) → (contains_text p s ≡ true) ↔ Holds p s
contains_text-Holds p s = (contains_text-found p s, λ (a, b, e). rw e (contains_text-append a p b))

-- Splitting at a separator that stands between two texts splits both.
split-some :
    (sep : ℕ) (s : String) → (w : String) × (ws : List String) × (split sep s ≡ List.◌∷◌ w ws)
unfolding split
split-some sep [] = ([], List.[], refl)
split-some sep (c ∷ s) = elim (Bool-cases (nat_eq (code c) sep)) [
  | inl e ↦ ([], split sep s, rw e refl)
  | inr e ↦ let (w, ws, p) = split-some sep s in (c ∷ w, ws, rw e (rw p refl))
]

push_front-append :
    (c : Char) (xs ys : List String) {w : String} {ws : List String}
    → xs ≡ List.◌∷◌ w ws
    → push_front c (xs +++ ys) ≡ push_front c xs +++ ys
unfolding push_front
push_front-append c List.[] ys e = cc
push_front-append c (List.◌∷◌ v vs) ys e = refl

pub split-append :
    (sep : ℕ) (a : String) (c : Char) (b : String)
    → code c ≡ sep
    → split sep (a ++ (c ∷ b)) ≡ split sep a +++ split sep b
unfolding split
split-append sep [] c b h = rw append.nil (rw ((nat_eq_iff (code c) sep).1 h) refl)
split-append sep (d ∷ a) c b h =
    let ih = split-append sep a c b h in
    rw append.cons (elim (Bool-cases (nat_eq (code d) sep)) [
      | inl e ↦ rw e (ap (λ t. List.◌∷◌ [] t) ih)
      | inr e ↦
          let (w, ws, p) = split-some sep a in
          rw e (ap (push_front d) ih ∙ push_front-append d (split sep a) (split sep b) p)
    ])

-- Joining what was split gives the text itself.
join-push_front :
    (sep : String) (c : Char) (w : String) (ws : List String)
    → join sep (push_front c (List.◌∷◌ w ws)) ≡ c ∷ join sep (List.◌∷◌ w ws)
unfolding join push_front
join-push_front sep c w List.[] = refl
join-push_front sep c w (List.◌∷◌ v vs) = append.cons c w _

pub join-split : (sep : Char) (s : String) → join (sep ∷ []) (split (code sep) s) ≡ s
unfolding split join
join-split sep [] = refl
join-split sep (c ∷ s) =
    let (w, ws, p) = split-some (code sep) s in
    let ih : join (sep ∷ []) (List.◌∷◌ w ws) ≡ s =
      ap (join (sep ∷ [])) (sym p) ∙ join-split sep s in
    elim (Bool-cases (nat_eq (code c) (code sep))) [
      | inl e ↦
          let same : c ≡ sep = Char-path c sep ((nat_eq_iff (code c) (code sep)).0 e) in
          rw e (
            rw p (
              append.nil _
              ∙ append.cons sep [] _
              ∙ ap (λ t. sep ∷ t) (append.nil _ ∙ ih)
              ∙ ap (λ d. d ∷ s) (sym same)))
      | inr e ↦ rw e (rw p (join-push_front (sep ∷ []) c w ws ∙ ap (λ t. c ∷ t) ih))
    ]
