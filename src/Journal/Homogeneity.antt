-- ===== src/Journal/Homogeneity.antt =====
-- crates/pact-journal/src/raft/state.rs: `check_homogeneity`.
use pact.Base.{
  ◌≡◌, refl, ◌≢◌, ◌↔◌, In-map, In-map_of, Bool, true, false, List, [], ◌∷◌, map, String, String_eq,
  ◌==◌, flat_map, In, here, there, In-flat_map, In-flat_map_of, select, In-select, In-select_of,
  ==_self, ==_true, subst, sym, ap, ◌∙◌,
}
use pact.Types.{NodeId, VClusterId, ConfigEntry, DeltaItem, Scope}
use pact.Journal.State.{JournalState}
use pact.Journal.Conflicts.{kernel_items, HasKernelItem, kernel_items-In, IsRecorded, values-In}

pub record HomogeneityWarning : Type 0 where
  pub node_id : NodeId
  pub delta_keys : List String

-- `matches!(&e.scope, Scope::Node(n) if n == node_id)`.
abbrev pub is_node_scope : NodeId → Scope → Bool
is_node_scope node_id (Scope.node n) = n == node_id
is_node_scope node_id _ = false

-- The keys of the kernel deltas of the entries scoped to the node.
unfoldable pub delta_keys : NodeId → JournalState → List String
delta_keys node_id s =
    flat_map (λ e. map (λ d. d.key) (kernel_items e))
      (select (λ e. is_node_scope node_id e.scope) (map (λ p. p.1) s.entries))

-- One step of the loop: a node with keys is warned of.
abbrev pub warn : NodeId → List String → List HomogeneityWarning
warn node_id [] = []
warn node_id (k ∷ ks) = record { node_id = node_id; delta_keys = k ∷ ks } ∷ []

unfoldable pub check_homogeneity : VClusterId → JournalState → List HomogeneityWarning
unfolding delta_keys
check_homogeneity vcluster_id s =
    flat_map (λ p. warn p.0 (delta_keys p.0 s))
      (select (λ p. p.1 == vcluster_id) s.node_assignments)

-- Some entry of the journal that is scoped to this very node changes the kernel setting of this key.
pub record HasDelta (s : JournalState) (node_id : NodeId) (key : String) : Type 0 where
  pub entry : ConfigEntry
  pub entry_in : IsRecorded s entry
  pub scoped : entry.scope ≡ Scope.node node_id
  pub item : DeltaItem
  pub item_in : HasKernelItem entry item
  pub keyed : key ≡ item.key

is_node_scope_iff :
    (n : NodeId) (scope : Scope) → (is_node_scope n scope ≡ true) ↔ (scope ≡ Scope.node n)
is_node_scope_iff n Scope.global = (λ h. cc, λ p. cc)
is_node_scope_iff n (Scope.vcluster vc) = (λ h. cc, λ p. cc)
is_node_scope_iff n (Scope.node m) =
    (λ h. ap Scope.node (==_true m n h), λ p. (String_eq.same_iff m n).1 (cc p))

delta_keys_iff :
    (n : NodeId) (s : JournalState) (k : String) → In k (delta_keys n s) ↔ HasDelta s n k
unfolding delta_keys
delta_keys_iff n s k = (
  λ m.
      let (entry, there_, m1) = In-flat_map _ _ k m in
      let (entry_in, scoped) = In-select (λ e. is_node_scope n e.scope) _ entry there_ in
      let (item, item_in, keyed) = In-map (λ d. d.key) (kernel_items entry) k m1 in
      record {
        entry = entry;
        entry_in = (values-In s entry).0 entry_in;
        scoped = (is_node_scope_iff n entry.scope).0 scoped;
        item = item;
        item_in = (kernel_items-In entry item).0 item_in;
        keyed = keyed;
      },
  λ h.
      In-flat_map_of _ _ h.entry k
        (In-select_of (λ e. is_node_scope n e.scope) _ h.entry ((values-In s h.entry).1 h.entry_in)
          ((is_node_scope_iff n h.entry.scope).1 h.scoped))
        (subst (λ x. In x (map (λ (d : DeltaItem). d.key) (kernel_items h.entry))) (sym h.keyed)
          (In-map_of (λ d. d.key) (kernel_items h.entry) h.item
            ((kernel_items-In h.entry h.item).1 h.item_in))),
)

In-warn :
    (n : NodeId) (ks : List String) (w : HomogeneityWarning)
    → In w (warn n ks)
    → (w.node_id ≡ n) × (w.delta_keys ≡ ks) × (ks ≢ [])
In-warn n [] w m = elim m [ ]
In-warn n (k ∷ ks) w (here p) = (
  ap (λ (v : HomogeneityWarning). v.node_id) p,
  ap (λ (v : HomogeneityWarning). v.delta_keys) p,
  λ q. cc,
)
In-warn n (k ∷ ks) w (there m) = elim m [ ]

warned :
    (n : NodeId) (ks : List String) (k : String)
    → In k ks
    → In (record { node_id = n; delta_keys = ks }) (warn n ks)
warned n [] k m = elim m [ ]
warned n (j ∷ ks) k m = here refl

-- Every warning names a node that is assigned to the vCluster, and lists one key at least. Each key that
-- it lists is that of a kernel setting which an entry of the journal scoped to this very node changes.
pub check_homogeneity_sound :
    (v : VClusterId) (s : JournalState) (w : HomogeneityWarning)
    → In w (check_homogeneity v s)
    → In (w.node_id, v) s.node_assignments
      × (w.delta_keys ≢ [])
      × ((k : String) → In k w.delta_keys → HasDelta s w.node_id k)
unfolding check_homogeneity
check_homogeneity_sound v s w m =
    let (p, from, shown) = In-flat_map (λ q. warn q.0 (delta_keys q.0 s)) _ w m in
    let (assigned, in_cluster) = In-select (λ q. q.1 == v) s.node_assignments p from in
    let (named, keys, some_key) = In-warn p.0 (delta_keys p.0 s) w shown in
    let this_pair : p ≡ (w.node_id, v) = λ i. (sym named i, ==_true p.1 v in_cluster i) in
    (
      subst (λ q. In q s.node_assignments) this_pair assigned,
      λ e. some_key (sym keys ∙ e),
      λ k h.
          subst (λ n. HasDelta s n k) (sym named)
            ((delta_keys_iff p.0 s k).0 (subst (In k) keys h)),
    )

-- If a node is assigned to the vCluster, and an entry of the journal scoped to this very node changes a
-- kernel setting, then the node is warned of, with the keys of exactly the kernel settings that such
-- entries change.
pub check_homogeneity_complete :
    (v : VClusterId) (s : JournalState) (n : NodeId) (key : String)
    → In (n, v) s.node_assignments
    → HasDelta s n key
    → (w : HomogeneityWarning) × In w (check_homogeneity v s)
      × (w.node_id ≡ n)
      × ((k : String) → In k w.delta_keys ↔ HasDelta s n k)
unfolding check_homogeneity
check_homogeneity_complete v s n key assigned delta = (
  record { node_id = n; delta_keys = delta_keys n s },
  In-flat_map_of _ _ (n, v) _
      (In-select_of (λ p. p.1 == v) s.node_assignments (n, v) assigned (==_self v))
      (warned n (delta_keys n s) key ((delta_keys_iff n s key).1 delta)),
  refl,
  delta_keys_iff n s,
)
