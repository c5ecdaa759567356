-- ===== src/Journal/Convert/Roundtrip.antt =====
-- crates/pact-journal/src/service.rs: which entries survive the way over the wire and back.
use mathlib.Core.Option
use pact.Base.{
  ℕ, ◌^◌, ◌%◌, ◌≤◌, ◌<◌, ◌≡◌, refl, sym, ap, ◌≢◌, ◌↔◌, inl, inr, String, Option, none, some, List,
  [], ◌∷◌, arith, All, map_back_iff, Option-cases, if◌then◌else◌,
}
use pact.Base.Text.{is_empty}
use pact.Base.Decimal.{to_string, parse_unsigned, parse_unsigned-to_string, parse_unsigned_lt}
use pact.Types.{
  DateTime, EntryType, PrincipalType, Scope, DeltaAction, DeltaItem, StateDelta, ConfigEntry,
}
use pact.Journal.Wire.{Duration, Status, answer, error}
use pact.Journal.Convert.{
  item, entry_type_of, entry_type_code, scope_of, scope_to_proto, domain_scope, principal_type_of,
  principal_type_name, proto_action, domain_action, gpu_index_of, proto_to_state_delta,
  state_delta_to_proto, proto_to_config_entry, config_entry_to_proto,
}

-- An item of a list whose messages have no place for the previous value.
abbrev HasNoPrevious : DeltaItem → Type 0
HasNoPrevious m = m.previous ≡ none

-- A mount's message has places for specifications, which an item's texts do not fill.
abbrev HasNoValues : DeltaItem → Type 0
HasNoValues m = (m.value ≡ none) × (m.previous ≡ none)

-- A GPU's message holds its number.
abbrev IsNumbered : DeltaItem → Type 0
IsNumbered m = (m.previous ≡ none) × ((n : ℕ) × (n < 2 ^ 32) × (m.key ≡ to_string n))

-- A delta of which the wire loses nothing.
pub record IsCarried (d : StateDelta) : Type 0 where
  pub mounts : All HasNoValues d.mounts
  pub network : All HasNoPrevious d.network
  pub packages : All HasNoPrevious d.packages
  pub gpu : All IsNumbered d.gpu

abbrev pub OnSome : {A : Type 0} → (A → Type 0) → Option A → Type 0
OnSome P none = Unit
OnSome P (some a) = P a

-- An entry that is read back as it was written.
pub record IsPortable (e : ConfigEntry) : Type 0 where
  pub kind : entry_type_code e.entry_type ≤ 13
  pub state_delta : OnSome IsCarried e.state_delta
  pub policy_ref : e.policy_ref ≢ some ""

action_back : (a : DeltaAction) → proto_action (domain_action a) ≡ a
unfolding proto_action domain_action
action_back DeltaAction.add = refl
action_back DeltaAction.remove = refl
action_back DeltaAction.modify = refl

item_iff :
    (m : DeltaItem) (k : String) (v p : Option String)
    → (item (domain_action m.action) k v p ≡ m) ↔ ((k ≡ m.key) × (v ≡ m.value) × (p ≡ m.previous))
unfolding item
item_iff m k v p = (
  λ h. (
    ap (λ (x : DeltaItem). x.key) h,
    ap (λ (x : DeltaItem). x.value) h,
    ap (λ (x : DeltaItem). x.previous) h,
  ),
  λ (e, f, g). cc (action_back m.action, e, f, g),
)

-- A number that is written as text is read as itself, and no other text is.
numbered_iff :
    (key : String)
    → (to_string (gpu_index_of key) ≡ key) ↔ ((n : ℕ) × (n < 2 ^ 32) × (key ≡ to_string n))
unfolding gpu_index_of
numbered_iff key =
    (λ h. (gpu_index_of key, bounded (parse_unsigned (2 ^ 32) key) refl, sym h), back)
  where
    bounded : (o : Option ℕ) → parse_unsigned (2 ^ 32) key ≡ o → Option.get_or o 0 < 2 ^ 32
    bounded none e = omega arith
    bounded (some n) e = parse_unsigned_lt (2 ^ 32) key (omega arith) e

    back : ((n : ℕ) × (n < 2 ^ 32) × (key ≡ to_string n)) → to_string (gpu_index_of key) ≡ key
    back (n, small, e) = rw e (rw (parse_unsigned-to_string (2 ^ 32) n (omega arith) small))

-- An item that is written without its previous value.
without_previous :
    (m : DeltaItem) → (item (domain_action m.action) m.key m.value none ≡ m) ↔ HasNoPrevious m
without_previous m = (
  λ h. sym ((item_iff m m.key m.value none).0 h).2,
  λ p. (item_iff m m.key m.value none).1 (refl, refl, sym p),
)

without_values :
    (m : DeltaItem) → (item (domain_action m.action) m.key none none ≡ m) ↔ HasNoValues m
without_values m = (
  λ h. let (k, v, p) = (item_iff m m.key none none).0 h in (sym v, sym p),
  λ (v, p). (item_iff m m.key none none).1 (refl, sym v, sym p),
)

whole : (m : DeltaItem) → (item (domain_action m.action) m.key m.value m.previous ≡ m) ↔ Unit {0}
whole m = (λ h. tt, λ h. (item_iff m m.key m.value m.previous).1 (refl, refl, refl))

numbered :
    (m : DeltaItem)
    → (item (domain_action m.action) (to_string (gpu_index_of m.key)) m.value none ≡ m)
      ↔ IsNumbered m
numbered m = (
  λ h.
      let (k, v, p) = (item_iff m (to_string (gpu_index_of m.key)) m.value none).0 h in
      (sym p, (numbered_iff m.key).0 k),
  λ (p, n).
      (item_iff m (to_string (gpu_index_of m.key)) m.value none).1
        ((numbered_iff m.key).1 n, refl, sym p),
)

All-Unit : (xs : List DeltaItem) → All (λ m. Unit {0}) xs
All-Unit [] = tt
All-Unit (x ∷ xs) = (tt, All-Unit xs)

-- A delta on its way over the wire and back.
there_and_back : StateDelta → StateDelta
there_and_back d = proto_to_state_delta (state_delta_to_proto d)

mounts_iff : (d : StateDelta) → ((there_and_back d).mounts ≡ d.mounts) ↔ All HasNoValues d.mounts
unfolding there_and_back proto_to_state_delta state_delta_to_proto
mounts_iff d = map_back_iff _ _ HasNoValues without_values d.mounts

network_iff :
    (d : StateDelta) → ((there_and_back d).network ≡ d.network) ↔ All HasNoPrevious d.network
unfolding there_and_back proto_to_state_delta state_delta_to_proto
network_iff d = map_back_iff _ _ HasNoPrevious without_previous d.network

packages_iff :
    (d : StateDelta) → ((there_and_back d).packages ≡ d.packages) ↔ All HasNoPrevious d.packages
unfolding there_and_back proto_to_state_delta state_delta_to_proto
packages_iff d = map_back_iff _ _ HasNoPrevious without_previous d.packages

gpu_iff : (d : StateDelta) → ((there_and_back d).gpu ≡ d.gpu) ↔ All IsNumbered d.gpu
unfolding there_and_back proto_to_state_delta state_delta_to_proto
gpu_iff d = map_back_iff _ _ IsNumbered numbered d.gpu

files_iff : (d : StateDelta) → ((there_and_back d).files ≡ d.files) ↔ All (λ m. Unit {0}) d.files
unfolding there_and_back proto_to_state_delta state_delta_to_proto
files_iff d = map_back_iff _ _ (λ m. Unit {0}) whole d.files

services_iff :
    (d : StateDelta) → ((there_and_back d).services ≡ d.services) ↔ All (λ m. Unit {0}) d.services
unfolding there_and_back proto_to_state_delta state_delta_to_proto
services_iff d = map_back_iff _ _ (λ m. Unit {0}) whole d.services

kernel_iff :
    (d : StateDelta) → ((there_and_back d).kernel ≡ d.kernel) ↔ All (λ m. Unit {0}) d.kernel
unfolding there_and_back proto_to_state_delta state_delta_to_proto
kernel_iff d = map_back_iff _ _ (λ m. Unit {0}) whole d.kernel

delta_iff : (d : StateDelta) → (there_and_back d ≡ d) ↔ IsCarried d
delta_iff d = (
  λ h. record {
    mounts = (mounts_iff d).0 (ap (λ (x : StateDelta). x.mounts) h);
    network = (network_iff d).0 (ap (λ (x : StateDelta). x.network) h);
    packages = (packages_iff d).0 (ap (λ (x : StateDelta). x.packages) h);
    gpu = (gpu_iff d).0 (ap (λ (x : StateDelta). x.gpu) h);
  },
  λ c i. record {
    mounts = (mounts_iff d).1 c.mounts i;
    files = (files_iff d).1 (All-Unit d.files) i;
    network = (network_iff d).1 c.network i;
    services = (services_iff d).1 (All-Unit d.services) i;
    kernel = (kernel_iff d).1 (All-Unit d.kernel) i;
    packages = (packages_iff d).1 c.packages i;
    gpu = (gpu_iff d).1 c.gpu i;
  },
)

entry_type_back :
    (t : EntryType) → entry_type_code t ≤ 13 → entry_type_of (entry_type_code t) ≡ some t
unfolding entry_type_of entry_type_code
entry_type_back t h = ground arith

entry_type_lost : (n : ℕ) {t : EntryType} → entry_type_of n ≡ some t → n ≤ 13
unfolding entry_type_of
entry_type_lost n h = ground arith

principal_type_back : (t : PrincipalType) → principal_type_of (principal_type_name t) ≡ t
unfolding principal_type_of principal_type_name
principal_type_back PrincipalType.human = refl
principal_type_back PrincipalType.agent = refl
principal_type_back PrincipalType.service = refl

scope_back : (s : Scope) → scope_of (scope_to_proto s) ≡ s
unfolding scope_of scope_to_proto domain_scope
scope_back Scope.global = refl
scope_back (Scope.vcluster v) = refl
scope_back (Scope.node n) = refl

option_delta_iff : (d : Option StateDelta) → (Option.map there_and_back d ≡ d) ↔ OnSome IsCarried d
option_delta_iff none = (λ h. tt, λ h. refl)
option_delta_iff (some d) =
    (λ h. (delta_iff d).0 (cc h), λ c. ap (λ (x : StateDelta). some x) ((delta_iff d).1 c))

policy_ref_iff :
    (p : Option String)
    → ((if is_empty (Option.get_or p "") then none else some (Option.get_or p "")) ≡ p)
      ↔ (p ≢ some "")
policy_ref_iff none = (λ h e. cc, λ h. refl)
policy_ref_iff (some String.[]) = (λ h e. cc, λ h. absurd (h refl))
policy_ref_iff (some (String.◌∷◌ c s)) = (λ h e. cc, λ h. refl)

ttl_back :
    (t : Option ℕ)
    → OnSome (λ n. n < 2 ^ 32) t
    → Option.map
        (λ (d : Duration). d.seconds % 2 ^ 32)
        (Option.map (λ (s : ℕ). record { seconds = s; nanos = 0 }) t)
      ≡ t
ttl_back none h = refl
ttl_back (some t) h = let e : t % 2 ^ 32 ≡ t = omega arith in ap some e

there_and_back_lem :
    (d : Option StateDelta)
    → Option.map proto_to_state_delta (Option.map state_delta_to_proto d)
      ≡ Option.map there_and_back d
unfolding there_and_back
there_and_back_lem none = refl
there_and_back_lem (some d) = refl

-- What the reader makes of a written entry, of the kind that it finds.
reread : DateTime → EntryType → ConfigEntry → ConfigEntry
reread now t e = record e {
  timestamp = now;
  entry_type = t;
  state_delta = Option.map there_and_back e.state_delta;
  policy_ref =
      if is_empty (Option.get_or e.policy_ref "")
      then none
      else some (Option.get_or e.policy_ref "");
}

read_unknown :
    (now : DateTime) (e : ConfigEntry)
    → entry_type_of (entry_type_code e.entry_type) ≡ none
    → proto_to_config_entry now (config_entry_to_proto e)
      ≡ error (Status.invalid_argument "unknown entry type")
unfolding proto_to_config_entry config_entry_to_proto
read_unknown now e lost = rw (lost, proto_to_config_entry) refl

read_known :
    (now : DateTime) (e : ConfigEntry) {t : EntryType}
    → OnSome (λ n. n < 2 ^ 32) e.ttl_seconds
    → entry_type_of (entry_type_code e.entry_type) ≡ some t
    → proto_to_config_entry now (config_entry_to_proto e) ≡ answer (reread now t e)
unfolding proto_to_config_entry config_entry_to_proto reread
read_known now e small found =
    rw (found, proto_to_config_entry)
      (cc (
        scope_back e.scope,
        principal_type_back e.author.principal_type,
        ttl_back e.ttl_seconds small,
        there_and_back_lem e.state_delta,
      ))

-- An entry whose TTL fits a u32 is read back from its message with all its fields, but for the time
-- stamp, which becomes that of the reading, if and only if: it is of one of the thirteen kinds that
-- the reader knows; its policy reference, if any, is not empty; and in its delta, if any, no mount has
-- a value, no mount, network, package or GPU item has a previous value, and each GPU's key is the
-- decimal text of a u32.
pub config_entry-roundtrip_iff :
    (now : DateTime) (e : ConfigEntry)
    → OnSome (λ n. n < 2 ^ 32) e.ttl_seconds
    → (proto_to_config_entry now (config_entry_to_proto e) ≡ answer (record e { timestamp = now }))
      ↔ IsPortable e
unfolding reread
config_entry-roundtrip_iff now e small =
    elim (Option-cases (entry_type_of (entry_type_code e.entry_type))) [
      | inl lost ↦
          rw (read_unknown now e lost) (λ h. cc, λ p. cc (entry_type_back e.entry_type p.kind))
      | inr (t, found) ↦ rw (read_known now e small found) (
        λ h. record {
          kind = entry_type_lost (entry_type_code e.entry_type) found;
          state_delta = (option_delta_iff e.state_delta).0 (cc h);
          policy_ref = (policy_ref_iff e.policy_ref).0 (cc h);
        },
        λ p. cc (
          entry_type_back e.entry_type p.kind,
          (option_delta_iff e.state_delta).1 p.state_delta,
          (policy_ref_iff e.policy_ref).1 p.policy_ref,
        ),
      )
    ]
