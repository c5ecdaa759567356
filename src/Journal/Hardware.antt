-- ===== src/Journal/Hardware.antt =====
-- crates/pact-journal/src/raft/state.rs: enrollment records and the index of their hardware.
use pact.Base.{
  ◌≡◌, refl, sym, ◌∙◌, ap, ◌⊎◌, inl, inr, none, some, String, String_eq, arith, ==_cases,
}
use pact.Base.Map.{
  Map, Each, Each-insert, lookup, insert, lookup-insert_self, lookup-insert_ne, contains_key,
}
use pact.Types.{NodeId, NodeEnrollment}
use pact.Journal.State.{JournalState, hw_canonical_key}
use pact.Journal.Handlers.{register_node}

-- Every record stands under its own id, and its hardware is indexed to it.
pub record IsIndexed (hw_index : Map String NodeId) (n : NodeId) (e : NodeEnrollment) : Type 0 where
  pub node_id : e.node_id ≡ n
  pub indexed : lookup (hw_canonical_key e.hardware_identity) hw_index ≡ some n

-- Every index entry points to a record with that hardware.
abbrev pub IsOwned : Map NodeId NodeEnrollment → String → NodeId → Type 0
IsOwned enrollments key n =
    (e : NodeEnrollment) × (lookup n enrollments ≡ some e)
    × (hw_canonical_key e.hardware_identity ≡ key)

pub record IsRegistry (enrollments : Map NodeId NodeEnrollment) (hw_index : Map String NodeId)
    : Type 0 where
  pub records : Each (IsIndexed hw_index) enrollments
  pub index : Each (IsOwned enrollments) hw_index

module _ (enrollments : Map NodeId NodeEnrollment) (hw_index : Map String NodeId)
    (r : IsRegistry enrollments hw_index) where
  -- A record is replaced by one of the same node and hardware.
  pub IsRegistry-update :
      (n : NodeId) (e e' : NodeEnrollment)
      → lookup n enrollments ≡ some e
      → e'.node_id ≡ e.node_id
      → e'.hardware_identity ≡ e.hardware_identity
      → IsRegistry (insert n e' enrollments) hw_index
  IsRegistry-update n e e' found same_id same_hw = record {
    records = Each-insert (IsIndexed hw_index) n e' enrollments r.records (record {
      node_id = same_id ∙ (r.records n e found).node_id;
      indexed = rw same_hw (r.records n e found).indexed;
    });
    index = λ key m owned. elim (==_cases n m) [
      | inl p ↦
          let (v, there, keyed) = r.index key m owned in
          let same : v ≡ e = cc (p, found, there) in
          (
            e',
            rw (← p) (lookup-insert_self n e' enrollments),
            ap hw_canonical_key
                  (same_hw ∙ sym (ap (λ (x : NodeEnrollment). x.hardware_identity) same))
                ∙ keyed,
          )
      | inr (p, _) ↦
          let (v, there, keyed) = r.index key m owned in
          (v, lookup-insert_ne m n e' enrollments p ∙ there, keyed)
    ];
  }

  -- A new record of a new node with new hardware.
  pub IsRegistry-insert :
      (e : NodeEnrollment)
      → lookup e.node_id enrollments ≡ none
      → lookup (hw_canonical_key e.hardware_identity) hw_index ≡ none
      → IsRegistry
          (insert e.node_id e enrollments)
          (insert (hw_canonical_key e.hardware_identity) e.node_id hw_index)
  IsRegistry-insert e new_node new_hw = record {
    records =
        Each-insert (IsIndexed new_index) e.node_id e enrollments
          (λ n v found. record {
            node_id = (r.records n v found).node_id;
            indexed =
                lookup-insert_ne (hw_canonical_key v.hardware_identity) key e.node_id hw_index
                  (λ p. cc (new_hw, p, (r.records n v found).indexed))
                ∙ (r.records n v found).indexed;
          })
          (record { node_id = refl; indexed = lookup-insert_self key e.node_id hw_index });
    index =
        Each-insert (IsOwned (insert e.node_id e enrollments)) key e.node_id hw_index
          (λ other m owned.
            let (v, there, keyed) = r.index other m owned in
            (
              v,
              lookup-insert_ne m e.node_id e enrollments (λ p. cc (new_node, p, there)) ∙ there,
              keyed,
            ))
          (e, lookup-insert_self e.node_id e enrollments, refl);
  }
    where
      key : String
      key = hw_canonical_key e.hardware_identity

      new_index : Map String NodeId
      new_index = insert key e.node_id hw_index

  -- No two nodes have hardware of one key.
  pub IsRegistry-unique :
      (n m : NodeId) (e v : NodeEnrollment)
      → lookup n enrollments ≡ some e
      → lookup m enrollments ≡ some v
      → hw_canonical_key e.hardware_identity ≡ hw_canonical_key v.hardware_identity
      → n ≡ m
  IsRegistry-unique n m e v here there same_key =
      cc ((r.records n e here).indexed, (r.records m v there).indexed, same_key)

pub register_node-cases :
    (e : NodeEnrollment) (s : JournalState)
    → ((register_node e s).0 ≡ s)
      ⊎ ((lookup e.node_id s.enrollments ≡ none)
          × (lookup (hw_canonical_key e.hardware_identity) s.hw_index ≡ none)
          × ((register_node e s).0 ≡ record s {
            hw_index = insert (hw_canonical_key e.hardware_identity) e.node_id s.hw_index;
            enrollments = insert e.node_id e s.enrollments;
          }))
unfolding register_node contains_key
register_node-cases e s = ground arith

pub register_node-IsRegistry :
    (e : NodeEnrollment) (s : JournalState)
    → IsRegistry s.enrollments s.hw_index
    → IsRegistry (register_node e s).0.enrollments (register_node e s).0.hw_index
register_node-IsRegistry e s r = elim (register_node-cases e s) [
  | inl p ↦ rw p r
  | inr (new_node, new_hw, p) ↦
      rw p (IsRegistry-insert s.enrollments s.hw_index r e new_node new_hw)
]
