-- ===== src/Journal/Entries.antt =====
-- crates/pact-journal/src/raft/state.rs: the config entries. Which entries are accepted, and what
-- holds of those that the journal keeps.
use pact.Base.{
  ℕ, ◌+◌, ◌^◌, ◌%◌, ◌≤◌, ◌<◌, ◌≡◌, refl, sym, subst, ◌∙◌, ◌≢◌, ◌⊎◌, ◌↔◌, inl, inr, false, Option,
  none, some, arith, String, ℕ_eq, ==_cases,
}
use pact.Base.BTree
use pact.Base.Map.{Map, Each, lookup}
use pact.Base.Text.{is_empty}
use pact.Types.{EntrySeq, ConfigEntry}
use pact.Journal.Command.{entry_appended}
use pact.Journal.State.{JournalState, u64}
use pact.Journal.Handlers.{append_entry, parent_too_late, ttl_below_min, ttl_above_max}

abbrev pub IsBefore : Option EntrySeq → EntrySeq → Type 0
IsBefore none n = Unit
IsBefore (some parent) n = parent < n

-- No limit, none asked for, or one between 15 minutes and 10 days.
abbrev pub IsTtl : Option ℕ → Type 0
IsTtl none = Unit
IsTtl (some ttl) = (ttl ≡ 0) ⊎ ((900 ≤ ttl) × (ttl ≤ 864000))

-- An entry that may be appended at position `n`.
pub record IsAcceptable (n : EntrySeq) (e : ConfigEntry) : Type 0 where
  pub principal : e.author.principal ≢ ""
  pub role : e.author.role ≢ ""
  pub parent : IsBefore e.parent n
  pub ttl : IsTtl e.ttl_seconds

-- The entry that stands at position `n`.
pub record IsKept (n : EntrySeq) (e : ConfigEntry) : Type 0 where
  pub sequence : e.sequence ≡ n
  pub acceptable : IsAcceptable n e

-- The positions taken are those below `next`, and what stands there was acceptable.
pub record IsJournal (next : EntrySeq) (entries : Map EntrySeq ConfigEntry) : Type 0 where
  pub kept : Each IsKept entries
  pub below : Each (λ n e. n < next) entries
  pub dense : (n : EntrySeq) → n < next → (e : ConfigEntry) × (lookup n entries ≡ some e)

is_empty_iff : (s : String) → (is_empty s ≡ false) ↔ (s ≢ "")
is_empty_iff String.[] = (λ h. cc, λ h. absurd (h refl))
is_empty_iff (String.◌∷◌ c s) = (λ h p. cc, λ h. refl)

parent_too_late_iff :
    (p : Option EntrySeq) (n : EntrySeq) → (parent_too_late p n ≡ false) ↔ IsBefore p n
parent_too_late_iff none n = (λ h. tt, λ h. refl)
parent_too_late_iff (some p) n = ground arith

IsTtl-iff : (t : Option ℕ) → ((ttl_below_min t ≡ false) × (ttl_above_max t ≡ false)) ↔ IsTtl t
IsTtl-iff none = (λ h. tt, λ h. (refl, refl))
IsTtl-iff (some t) = ground arith

accepted-tests :
    (e : ConfigEntry) (s : JournalState)
    → (append_entry e s).1 ≡ entry_appended s.next_sequence
    → (is_empty e.author.principal ≡ false)
      × (is_empty e.author.role ≡ false)
      × (parent_too_late e.parent s.next_sequence ≡ false)
      × (ttl_below_min e.ttl_seconds ≡ false)
      × (ttl_above_max e.ttl_seconds ≡ false)
unfolding append_entry
accepted-tests e s h = ground arith

tests-accepted :
    (e : ConfigEntry) (s : JournalState)
    → is_empty e.author.principal ≡ false
    → is_empty e.author.role ≡ false
    → parent_too_late e.parent s.next_sequence ≡ false
    → ttl_below_min e.ttl_seconds ≡ false
    → ttl_above_max e.ttl_seconds ≡ false
    → (append_entry e s).1 ≡ entry_appended s.next_sequence
unfolding append_entry
tests-accepted e s p r f b a = rw p (rw r (rw f (rw b (rw a refl))))

accepted_iff :
    (e : ConfigEntry) (s : JournalState)
    → ((append_entry e s).1 ≡ entry_appended s.next_sequence) ↔ IsAcceptable s.next_sequence e
accepted_iff e s = (
  λ h.
      let (p, r, f, b, a) = accepted-tests e s h in
      record {
        principal = (is_empty_iff e.author.principal).0 p;
        role = (is_empty_iff e.author.role).0 r;
        parent = (parent_too_late_iff e.parent s.next_sequence).0 f;
        ttl = (IsTtl-iff e.ttl_seconds).0 (b, a);
      },
  λ h.
      let (b, a) = (IsTtl-iff e.ttl_seconds).1 h.ttl in
      tests-accepted e s ((is_empty_iff e.author.principal).1 h.principal)
        ((is_empty_iff e.author.role).1 h.role)
        ((parent_too_late_iff e.parent s.next_sequence).1 h.parent) b a,
)

-- The state with the entry written at the end.
abbrev pub written : ConfigEntry → JournalState → JournalState
written e s = record s {
  entries = BTree.insert s.next_sequence (record e { sequence = s.next_sequence }) s.entries;
  next_sequence = u64 (s.next_sequence + 1);
}

append_entry-answers :
    (e : ConfigEntry) (s : JournalState)
    → ((append_entry e s).0 ≡ s)
      ⊎ (((append_entry e s).1 ≡ entry_appended s.next_sequence)
          × ((append_entry e s).0 ≡ written e s))
unfolding append_entry
append_entry-answers e s = ground arith

accepted-state :
    (e : ConfigEntry) (s : JournalState)
    → (append_entry e s).1 ≡ entry_appended s.next_sequence
    → (append_entry e s).0 ≡ written e s
unfolding append_entry
accepted-state e s h = ground arith

-- `append_entry` either changes nothing, or writes an acceptable entry at the end.
pub append_entry-cases :
    (e : ConfigEntry) (s : JournalState)
    → ((append_entry e s).0 ≡ s)
      ⊎ (IsAcceptable s.next_sequence e × ((append_entry e s).0 ≡ written e s))
append_entry-cases e s = elim (append_entry-answers e s) [
  | inl p ↦ inl p
  | inr (p, q) ↦ inr ((accepted_iff e s).0 p, q)
]

-- The journal gained the entry under the next position, and nothing else changed but the counter.
pub record IsAppended (e : ConfigEntry) (s t : JournalState) : Type 0 where
  pub own : lookup s.next_sequence t.entries ≡ some (record e { sequence = s.next_sequence })
  pub others : (n : EntrySeq) → s.next_sequence ≢ n → lookup n t.entries ≡ lookup n s.entries
  pub rest : t ≡ record s { entries = t.entries; next_sequence = (s.next_sequence + 1) % 2 ^ 64 }

written-IsAppended : (e : ConfigEntry) (s : JournalState) → IsAppended e s (written e s)
written-IsAppended e s = record {
  own = BTree.lookup-insert_self s.next_sequence _ s.entries;
  others = λ n d. BTree.lookup-insert_ne n s.next_sequence _ s.entries d;
  rest = refl;
}

-- An entry may be appended at the next position if its author has a principal and a role, its parent, if
-- any, stands before that position, and its TTL, if any, is 0 or from 15 minutes to 10 days. If so, the
-- answer is that position, the entry stands there afterwards and carries it, and nothing else of the
-- state changes but the counter, which goes up by one and wraps at 2 ^ 64. If not, the answer is another
-- one, and the state is as it was.
pub append_entry-accepts_iff :
    (e : ConfigEntry) (s : JournalState)
    → (((append_entry e s).1 ≡ entry_appended s.next_sequence) ↔ IsAcceptable s.next_sequence e)
      × (IsAcceptable s.next_sequence e → IsAppended e s (append_entry e s).0)
      × ((IsAcceptable s.next_sequence e → ⊥) → (append_entry e s).0 ≡ s)
append_entry-accepts_iff e s = (
  accepted_iff e s,
  λ ok.
      subst (IsAppended e s) (sym (accepted-state e s ((accepted_iff e s).1 ok)))
        (written-IsAppended e s),
  λ bad. elim (append_entry-cases e s) [ inl p ↦ p | inr (ok, _) ↦ absurd (bad ok) ],
)

module _ (next : EntrySeq) (entries : Map EntrySeq ConfigEntry) (j : IsJournal next entries) where
  pub IsJournal-insert :
      (e : ConfigEntry)
      → IsAcceptable next e
      → IsJournal (next + 1) (BTree.insert next (record e { sequence = next }) entries)
  IsJournal-insert e ok = record {
    kept =
        BTree.Each-insert IsKept next (record e { sequence = next }) entries j.kept
          (record {
            sequence = refl;
            acceptable = record {
              principal = ok.principal;
              role = ok.role;
              parent = ok.parent;
              ttl = ok.ttl;
            };
          });
    below =
        BTree.Each-insert (λ n _. n < next + 1) next (record e { sequence = next }) entries
          (λ n v h. omega (arith, j.below n v h)) (omega arith);
    dense = λ n h. elim (==_cases next n) [
      | inl p ↦ (record e { sequence = next }, rw (← p) (BTree.lookup-insert_self next _ entries))
      | inr (p, _) ↦
          let (v, found) = j.dense n (omega arith) in
          (v, BTree.lookup-insert_ne n next (record e { sequence = next }) entries p ∙ found)
    ];
  }

  -- What stands in the journal stays.
  pub IsJournal-keeps :
      (n : EntrySeq) (v e : ConfigEntry)
      → lookup n entries ≡ some v
      → lookup n (BTree.insert next e entries) ≡ some v
  IsJournal-keeps n v e found =
      BTree.lookup-insert_ne n next e entries (λ p. absurd (omega (arith, j.below n v found)))
      ∙ found

module _ (e : ConfigEntry) (s : JournalState) (j : IsJournal s.next_sequence s.entries) where
  pub append_entry-IsJournal :
      s.next_sequence + 1 < 2 ^ 64
      → IsJournal (append_entry e s).0.next_sequence (append_entry e s).0.entries
  append_entry-IsJournal room = elim (append_entry-cases e s) [
    | inl p ↦ rw p j
    | inr (ok, p) ↦ rw p (rw wrapped (IsJournal-insert s.next_sequence s.entries j e ok))
  ]
    where
      wrapped : u64 (s.next_sequence + 1) ≡ s.next_sequence + 1
      wrapped = omega arith

  pub append_entry-keeps :
      (n : EntrySeq) (v : ConfigEntry)
      → lookup n s.entries ≡ some v
      → lookup n (append_entry e s).0.entries ≡ some v
  append_entry-keeps n v found = elim (append_entry-cases e s) [
    | inl p ↦ rw p found
    | inr (ok, p) ↦ rw p (IsJournal-keeps s.next_sequence s.entries j n v _ found)
  ]

pub append_entry-next_le :
    (e : ConfigEntry) (s : JournalState) → (append_entry e s).0.next_sequence ≤ s.next_sequence + 1
unfolding append_entry
append_entry-next_le e s = ground arith
