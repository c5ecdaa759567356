-- ===== src/Agent/Mounts/Ledger.antt =====
-- crates/pact-agent/src/handoff/mounts.rs: what each operation makes of the counts of users.
use pact.Base.{
  ℕ, ◌+◌, ◌-◌, ◌^◌, ◌<◌, ◌≡◌, ◌≢◌, inl, inr, refl, sym, ap, ◌∙◌, subst, String, String_eq, true,
  Option, none, some, List, [], ◌∷◌, ◌==◌, if◌then◌else◌, arith, ==_cases, ==_self, Option-cases,
  ltb, In, here, there, In-select, select,
}
use pact.Base.Map.{
  lookup, insert, remove, lookup-insert_self, lookup-insert_ne, lookup-remove_self,
  lookup-remove_ne,
}
use pact.Base.Bindings.{In-keys, In-lookup, IsDistinct, insert-IsDistinct, remove-IsDistinct}
use pact.Types.{DateTime}
use pact.Agent.Mounts.{
  MountRefManager, MountRefState, acquire, release, released, force_unmount, check_expired_holds,
  expired_holds, remove_all, is_over, reconstruct,
}

-- How many users an image has, 0 where it is not mounted.
abbrev pub users : Option MountRefState → ℕ
users none = 0
users (some state) = state.refcount

abbrev pub count : String → MountRefManager → ℕ
count image m = users (lookup image m.mounts)

-- How many users each image should have.
abbrev pub Ledger : Type 0
Ledger = String → ℕ

abbrev pub raise : String → Ledger → Ledger
raise image l k = if image == k then l k + 1 else l k

abbrev pub lower : String → Ledger → Ledger
lower image l k = if image == k then l k - 1 else l k

-- The users of the image are these many from now on.
abbrev pub assign : String → ℕ → Ledger → Ledger
assign image n l k = if image == k then n else l k

-- The image's users are assigned for each pair in turn.
abbrev pub assign_all : List (String × ℕ) → Ledger → Ledger
assign_all [] l = l
assign_all ((image, n) ∷ active) l = assign_all active (assign image n l)

pub record Matches (m : MountRefManager) (l : Ledger) : Type 0 where
  pub distinct : IsDistinct m.mounts
  pub counts : (k : String) → count k m ≡ l k

-- One binding is written, with the count that the ledger gets.
written-Matches :
    (m : MountRefManager) (l l' : Ledger) (image : String) (state : MountRefState)
    → Matches m l
    → l' image ≡ state.refcount
    → ((k : String) → image ≢ k → l' k ≡ l k)
    → Matches (record m { mounts = insert image state m.mounts }) l'
written-Matches m l l' image state h own others = record {
  distinct = insert-IsDistinct image state m.mounts h.distinct;
  counts = λ k. elim (==_cases image k) [
    | inl p ↦
        subst (λ j. users (lookup j (insert image state m.mounts)) ≡ l' j) p
          (ap users (lookup-insert_self image state m.mounts) ∙ sym own)
    | inr (n, _) ↦
        ap users (lookup-insert_ne k image state m.mounts n) ∙ h.counts k ∙ sym (others k n)
  ];
}

raise_others : (l : Ledger) (image k : String) → image ≢ k → raise image l k ≡ l k
raise_others l image k n = elim (==_cases image k) [ inl p ↦ absurd (n p) | inr (_, p) ↦ rw p refl ]

lower_others : (l : Ledger) (image k : String) → image ≢ k → lower image l k ≡ l k
lower_others l image k n = elim (==_cases image k) [ inl p ↦ absurd (n p) | inr (_, p) ↦ rw p refl ]

assign_others : (l : Ledger) (image k : String) (n : ℕ) → image ≢ k → assign image n l k ≡ l k
assign_others l image k n d = elim (==_cases image k) [
  | inl p ↦ absurd (d p)
  | inr (_, p) ↦ rw p refl
]

pub acquire-Matches :
    (image : String) (m : MountRefManager) (l : Ledger)
    → Matches m l
    → l image + 1 < 2 ^ 32
    → Matches (acquire image m).0 (raise image l)
unfolding acquire
acquire-Matches image m l h room = elim (Option-cases (lookup image m.mounts)) [
  | inl p ↦
      let zero_now : l image ≡ 0 = sym (h.counts image) ∙ ap users p in
      rw (acquire, p)
        (written-Matches m l (raise image l) image _ h (rw (==_self image) (omega arith))
          (raise_others l image))
  | inr (state, p) ↦
      let now : l image ≡ state.refcount = sym (h.counts image) ∙ ap users p in
      rw (acquire, p)
        (written-Matches m l (raise image l) image _ h (rw (==_self image) (omega arith))
          (raise_others l image))
]

pub release-Matches :
    (now : DateTime) (image : String) (m : MountRefManager) (l : Ledger)
    → Matches m l
    → 0 < l image
    → (t : MountRefManager) × (release now image m ≡ some t) × Matches t (lower image l)
unfolding release
release-Matches now image m l h some_user = elim (Option-cases (lookup image m.mounts)) [
  | inl p ↦ let zero_now : l image ≡ 0 = sym (h.counts image) ∙ ap users p in absurd (omega arith)
  | inr (state, p) ↦
      let same : l image ≡ state.refcount = sym (h.counts image) ∙ ap users p in
      let used : ltb 0 state.refcount ≡ true = ground arith in
      (
        _,
        rw (release, p, used) refl,
        written-Matches m l (lower image l) image (released now state) h
            (rw (==_self image) (omega arith)) (lower_others l image),
      )
]

pub force_unmount-Matches :
    (image : String) (m : MountRefManager) (l : Ledger)
    → Matches m l
    → Matches (force_unmount image m) (assign image 0 l)
unfolding force_unmount
force_unmount-Matches image m l h = record {
  distinct = remove-IsDistinct image m.mounts h.distinct;
  counts = λ k. elim (==_cases image k) [
    | inl p ↦
        subst (λ j. users (lookup j (remove image m.mounts)) ≡ assign image 0 l j) p
          (ap users (lookup-remove_self image m.mounts) ∙ rw (==_self image) refl)
    | inr (n, _) ↦
        ap users (lookup-remove_ne k image m.mounts n)
        ∙ h.counts k
        ∙ sym (assign_others l image k 0 n)
  ];
}

pub reconstruct-Matches :
    (now : DateTime) (active : List (String × ℕ)) (m : MountRefManager) (l : Ledger)
    → Matches m l
    → Matches (reconstruct now active m) (assign_all active l)
unfolding reconstruct
reconstruct-Matches now [] m l h = h
reconstruct-Matches now ((image, n) ∷ active) m l h =
    reconstruct-Matches now active _ (assign image n l) (
      written-Matches m l (assign image n l) image _ h (rw (==_self image) refl)
        (λ k. assign_others l image k n))

-- What is removed had no users.
remove_all-Matches :
    (paths : List String) (m : MountRefManager) (l : Ledger)
    → Matches m l
    → ((k : String) → In k paths → l k ≡ 0)
    → Matches (record m { mounts = remove_all paths m.mounts }) l
remove_all-Matches [] m l h unused = record { distinct = h.distinct; counts = h.counts }
remove_all-Matches (path ∷ paths) m l h unused =
    remove_all-Matches paths (record m { mounts = remove path m.mounts }) l
      (record {
        distinct = remove-IsDistinct path m.mounts h.distinct;
        counts = λ k. elim (==_cases path k) [
          | inl p ↦
              subst (λ j. users (lookup j (remove path m.mounts)) ≡ l j) p
                (ap users (lookup-remove_self path m.mounts) ∙ sym (unused path (here refl)))
          | inr (n, _) ↦ ap users (lookup-remove_ne k path m.mounts n) ∙ h.counts k
        ];
      })
      λ k i. unused k (there i)

pub check-Matches :
    (now : DateTime) (m : MountRefManager) (l : Ledger)
    → Matches m l
    → Matches (check_expired_holds now m).0 l
unfolding check_expired_holds
check-Matches now m l h = remove_all-Matches (expired_holds now m) m l h λ k i.
    let (state, j) = In-keys k (select (λ b. is_over now m.hold_duration b.1) m.mounts) i in
    let (there_, over) = In-select (λ b. is_over now m.hold_duration b.1) m.mounts (k, state) j in
    let no_user : state.refcount ≡ 0 = ground arith in
    sym (h.counts k) ∙ ap users (In-lookup k m.mounts h.distinct there_) ∙ no_user
