-- ===== src/Journal/Conflicts.antt =====
-- crates/pact-journal/src/raft/state.rs: `detect_conflicts`.
use mathlib.Core.List.{reverse}
use pact.Base.{
  ◌≡◌, ◌≢◌, ◌↔◌, refl, sym, ap, subst, inl, inr, arith, Bool, Bool-cases, true, false, not, ◌&&◌,
  Option, Option-cases, none, some, List, [], ◌∷◌, map, String, String_eq, ◌==◌, ==_true,
  if◌then◌else◌, flat_map, In, here, there, In-flat_map, In-flat_map_of, In-map, In-map_of,
  In-reverse_iff,
}
use pact.Types.{NodeId, EntrySeq, ConfigEntry, StateDelta, DeltaItem}
use pact.Journal.State.{JournalState}

pub record ConflictEntry : Type 0 where
  pub key : String
  pub local_value : String
  pub journal_value : String

-- `==` on `Option<String>`.
abbrev pub same_value : Option String → Option String → Bool
same_value none none = true
same_value (some a) (some b) = a == b
same_value _ _ = false

abbrev pub or_default : Option String → String
or_default none = ""
or_default (some v) = v

-- The kernel items of an entry, none where it has no delta.
abbrev pub kernel_items : ConfigEntry → List DeltaItem
kernel_items e = elim e.state_delta [ none ↦ [] | some delta ↦ delta.kernel ]

abbrev pub differs : DeltaItem → DeltaItem → Bool
differs local existing = existing.key == local.key && not (same_value existing.value local.value)

abbrev pub conflict : DeltaItem → DeltaItem → ConflictEntry
conflict local existing = record {
  key = local.key;
  local_value = or_default local.value;
  journal_value = or_default existing.value;
}

-- The innermost loop, over one journal entry's items.
conflicts_with : DeltaItem → ConfigEntry → List ConflictEntry
conflicts_with local existing =
    flat_map (λ item. if differs local item then conflict local item ∷ [] else [])
      (kernel_items existing)

unfoldable pub detect_conflicts : NodeId → List ConfigEntry → JournalState → List ConflictEntry
unfolding conflicts_with
detect_conflicts node_id local_entries s =
    flat_map
      (λ local.
        flat_map (λ item. flat_map (conflicts_with item) (reverse (map (λ p. p.1) s.entries)))
          (kernel_items local))
      local_entries

-- The entry changes the kernel setting.
pub record HasKernelItem (e : ConfigEntry) (item : DeltaItem) : Type 0 where
  pub delta : StateDelta
  pub recorded : e.state_delta ≡ some delta
  pub item_in : In item delta.kernel

pub kernel_items-In :
    (e : ConfigEntry) (item : DeltaItem) → In item (kernel_items e) ↔ HasKernelItem e item
kernel_items-In e item = elim (Option-cases e.state_delta) [
  | inl p ↦ (λ m. absurd (no_item (rw p at m)), λ h. absurd (cc (p, h.recorded)))
  | inr (delta, p) ↦ (
    λ m. record { delta = delta; recorded = p; item_in = rw p at m },
    λ h.
        let same : h.delta ≡ delta = cc (p, h.recorded) in
        rw p (subst (λ (d : StateDelta). In item d.kernel) same h.item_in),
  )
]
  where
    no_item : In item [] → ⊥
    no_item m = elim m [ ]

-- The entry stands in the journal, at some position.
abbrev pub IsRecorded : JournalState → ConfigEntry → Type 0
IsRecorded s e = (n : EntrySeq) × In (n, e) s.entries

pub values-In :
    (s : JournalState) (e : ConfigEntry) → In e (map (λ p. p.1) s.entries) ↔ IsRecorded s e
values-In s e = (
  λ m.
      let (p, i, q) = In-map (λ p. p.1) s.entries e m in
      (p.0, subst (λ v. In (p.0, v) s.entries) (sym q) i),
  λ r. In-map_of (λ p. p.1) s.entries (r.0, e) r.1,
)

-- How a value is shown: as it is, and as the empty text where there is none.
abbrev pub IsShown : Option String → String → Type 0
IsShown none text = text ≡ ""
IsShown (some v) text = text ≡ v

-- An item of a local entry and an item of an entry in the journal have one key and different values,
-- and this is what is reported of them.
pub record IsConflict (locals : List ConfigEntry) (s : JournalState) (c : ConflictEntry)
    : Type 0 where
  pub local : ConfigEntry
  pub local_in : In local locals
  pub item : DeltaItem
  pub item_in : HasKernelItem local item
  pub existing : ConfigEntry
  pub existing_in : IsRecorded s existing
  pub other : DeltaItem
  pub other_in : HasKernelItem existing other
  pub one_key : other.key ≡ item.key
  pub two_values : other.value ≢ item.value
  pub key : c.key ≡ item.key
  pub local_value : IsShown item.value c.local_value
  pub journal_value : IsShown other.value c.journal_value

same_value_iff : (a b : Option String) → (same_value a b ≡ true) ↔ (a ≡ b)
same_value_iff none none = (λ h. refl, λ p. refl)
same_value_iff none (some b) = (λ h. cc, λ p. cc)
same_value_iff (some a) none = (λ h. cc, λ p. cc)
same_value_iff (some a) (some b) =
    (λ h. ap some (==_true a b h), λ p. (String_eq.same_iff a b).1 (cc p))

or_default_iff : (v : Option String) (text : String) → (text ≡ or_default v) ↔ IsShown v text
or_default_iff none text = (λ h. h, λ h. h)
or_default_iff (some v) text = (λ h. h, λ h. h)

differs_iff :
    (item other : DeltaItem)
    → (differs item other ≡ true) ↔ ((other.key ≡ item.key) × (other.value ≢ item.value))
differs_iff item other = (
  λ h. (
    ==_true other.key item.key (ground (arith, h)),
    λ p. let same = (same_value_iff other.value item.value).1 p in ground (arith, h, same),
  ),
  λ p. elim (Bool-cases (same_value other.value item.value)) [
    | inl same ↦ absurd (p.1 ((same_value_iff other.value item.value).0 same))
    | inr apart ↦ rw ((String_eq.same_iff other.key item.key).1 p.0, apart) refl
  ],
)

In-if : {A : Type 0} (b : Bool) (x y : A) → In x (if b then y ∷ [] else []) → (b ≡ true) × (x ≡ y)
In-if true x y (here p) = (refl, p)
In-if true x y (there m) = elim m [ ]
In-if false x y m = elim m [ ]

-- A conflict is reported exactly for an item of a local entry and an item of some entry of the journal
-- that have one key and different values, with both values, an absent one as the empty text, and
-- whatever the scope and the age of the journal's entry.
pub detect_conflicts_iff :
    (node : NodeId) (locals : List ConfigEntry) (s : JournalState) (c : ConflictEntry)
    → In c (detect_conflicts node locals s) ↔ IsConflict locals s c
unfolding detect_conflicts
detect_conflicts_iff node locals s c = (
  λ m.
      let (local, local_in, m1) = In-flat_map _ locals c m in
      let (item, item_in, m2) = In-flat_map _ (kernel_items local) c m1 in
      let (existing, existing_in, m3) =
        In-flat_map (conflicts_with item) (reverse (map (λ p. p.1) s.entries)) c m2 in
      let (other, other_in, m4) = In-flat_map _ (kernel_items existing) c m3 in
      let (found, reported) = In-if (differs item other) c (conflict item other) m4 in
      let (one_key, two_values) = (differs_iff item other).0 found in
      record {
        local = local;
        local_in = local_in;
        item = item;
        item_in = (kernel_items-In local item).0 item_in;
        existing = existing;
        existing_in =
            (values-In s existing).0
              ((In-reverse_iff (map (λ p. p.1) s.entries) existing).0 existing_in);
        other = other;
        other_in = (kernel_items-In existing other).0 other_in;
        one_key = one_key;
        two_values = two_values;
        key = ap (λ (x : ConflictEntry). x.key) reported;
        local_value =
            (or_default_iff item.value _).0 (ap (λ (x : ConflictEntry). x.local_value) reported);
        journal_value =
            (or_default_iff other.value _).0 (ap (λ (x : ConflictEntry). x.journal_value) reported);
      },
  λ r. In-flat_map_of _ locals r.local c r.local_in (
      In-flat_map_of _ (kernel_items r.local) r.item c
        ((kernel_items-In r.local r.item).1 r.item_in)
        (In-flat_map_of (conflicts_with r.item) _ r.existing c
          ((In-reverse_iff (map (λ p. p.1) s.entries) r.existing).1
            ((values-In s r.existing).1 r.existing_in))
          (In-flat_map_of _ (kernel_items r.existing) r.other c
            ((kernel_items-In r.existing r.other).1 r.other_in)
            (rw ((differs_iff r.item r.other).1 (r.one_key, r.two_values)) (here (reported r)))))),
)
  where
    reported : (r : IsConflict locals s c) → c ≡ conflict r.item r.other
    reported r i = record {
      key = r.key i;
      local_value = (or_default_iff r.item.value c.local_value).1 r.local_value i;
      journal_value = (or_default_iff r.other.value c.journal_value).1 r.journal_value i;
    }
