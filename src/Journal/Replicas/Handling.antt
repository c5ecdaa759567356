-- ===== src/Journal/Replicas/Handling.antt =====
-- crates/pact-journal/src/raft/state.rs: each handler against the state without the times at which
-- nodes were last seen.
use mathlib.Core.Option
use pact.Base.{◌≡◌, refl, ◌⊎◌, arith, inl, inr, Option-cases, none, some, String_eq, String}
use pact.Base.Map.{
  Map, lookup, insert, map_values, lookup-map_values, map_values-insert, contains_key-map_values,
  map_values_idem,
}
use pact.Types.{
  DateTime, NodeId, NodeEnrollment, ConfigEntry, VClusterId, BootOverlay, Identity, ApprovalStatus,
  EnrollmentState,
}
use pact.Journal.State.{JournalState, Library}
use pact.Journal.Handlers.{
  Outcome, append_entry, set_overlay, decide_approval, register_node, activate_node,
  deactivate_node, revoke_node, assign_node_to_vcluster, unassign_node, activated, renewed,
  move_node_vcluster, update_node_last_seen, update_node_cert,
}

abbrev pub unseen : NodeEnrollment → NodeEnrollment
unseen e = record e { last_seen = none }

-- The state without the times at which nodes were last seen.
unfoldable pub forget : JournalState → JournalState
forget s = record s { enrollments = map_values unseen s.enrollments }

-- A handler does to the forgotten state what it does to the state.
abbrev pub Factors : (JournalState → Outcome) → (JournalState → Outcome) → JournalState → Type 0
Factors f g s = (forget (f s).0 ≡ forget (g (forget s)).0) × ((f s).1 ≡ (g (forget s)).1)

-- A write to the enrollments, on both sides of `Factors`.
forget-insert :
    (n : NodeId) (e e' : NodeEnrollment) (m : Map NodeId NodeEnrollment)
    → unseen e ≡ unseen e'
    → map_values unseen (insert n e m) ≡ map_values unseen (insert n e' (map_values unseen m))
forget-insert n e e' m p =
    simp (map_values-insert unseen, map_values_idem unseen m (λ v. refl)) (rw p)

module _ (s : JournalState) where
  pub same : map_values unseen (map_values unseen s.enrollments) ≡ map_values unseen s.enrollments
  same = map_values_idem unseen s.enrollments (λ v. refl)

  pub append_entry-Factors : (e : ConfigEntry) → Factors (append_entry e) (append_entry e) s
  unfolding append_entry forget
  append_entry-Factors e = ground (arith, map_values_idem unseen s.enrollments (λ v. refl))

  pub set_overlay-Factors :
      (lib : Library) (v : VClusterId) (o : BootOverlay)
      → Factors (set_overlay lib v o) (set_overlay lib v o) s
  unfolding set_overlay forget
  set_overlay-Factors lib v o = ground (arith, map_values_idem unseen s.enrollments (λ v. refl))

  pub decide_approval-Factors :
      (i : String) (a : Identity) (d : ApprovalStatus)
      → Factors (decide_approval i a d) (decide_approval i a d) s
  unfolding decide_approval forget
  decide_approval-Factors i a d = ground (arith, map_values_idem unseen s.enrollments (λ v. refl))

  pub register_node-Factors : (e : NodeEnrollment) → Factors (register_node e) (register_node e) s
  unfolding register_node forget
  register_node-Factors e = ground (
    arith,
    map_values_idem unseen s.enrollments (λ v. refl),
    contains_key-map_values unseen e.node_id s.enrollments,
    map_values-insert unseen e.node_id e s.enrollments,
    map_values-insert unseen e.node_id e (map_values unseen s.enrollments),
  )

  module _ (lib : Library) (n : NodeId) where
    found :
        (lookup n s.enrollments ≡ none) ⊎ ((e : NodeEnrollment) × (lookup n s.enrollments ≡ some e))
    found = Option-cases (lookup n s.enrollments)

    seen : lookup n (map_values unseen s.enrollments) ≡ Option.map unseen (lookup n s.enrollments)
    seen = lookup-map_values unseen n s.enrollments

    pub activate_node-Factors :
        (now : DateTime) (c x : String)
        → Factors (activate_node lib now n c x) (activate_node lib 0 n c x) s
    unfolding activate_node forget
    activate_node-Factors now c x = elim found [
      | inl p ↦ ground (arith, seen, same)
      | inr (e, p) ↦ ground (
        arith,
        seen,
        same,
        forget-insert n (activated lib now c x e) (activated lib 0 c x (unseen e)) s.enrollments
            refl,
      )
    ]

    pub deactivate_node-Factors : Factors (deactivate_node n) (deactivate_node n) s
    unfolding deactivate_node forget
    deactivate_node-Factors = elim found [
      | inl p ↦ ground (arith, seen, same)
      | inr (e, p) ↦ ground (
        arith,
        seen,
        same,
        forget-insert n (record e { state = EnrollmentState.inactive })
            (record (unseen e) { state = EnrollmentState.inactive }) s.enrollments refl,
      )
    ]

    pub revoke_node-Factors : Factors (revoke_node n) (revoke_node n) s
    unfolding revoke_node forget
    revoke_node-Factors = elim found [
      | inl p ↦ ground (arith, seen, same)
      | inr (e, p) ↦ ground (
        arith,
        seen,
        same,
        forget-insert n (record e { state = EnrollmentState.revoked })
            (record (unseen e) { state = EnrollmentState.revoked }) s.enrollments refl,
      )
    ]

    pub assign_node_to_vcluster-Factors :
        (v : VClusterId) → Factors (assign_node_to_vcluster n v) (assign_node_to_vcluster n v) s
    unfolding assign_node_to_vcluster forget
    assign_node_to_vcluster-Factors v = elim found [
      | inl p ↦ ground (arith, seen, same)
      | inr (e, p) ↦ ground (
        arith,
        seen,
        same,
        forget-insert n (record e { vcluster_id = some v })
            (record (unseen e) { vcluster_id = some v }) s.enrollments refl,
      )
    ]

    pub unassign_node-Factors : Factors (unassign_node n) (unassign_node n) s
    unfolding unassign_node forget
    unassign_node-Factors = elim found [
      | inl p ↦ ground (arith, seen, same)
      | inr (e, p) ↦ ground (
        arith,
        seen,
        same,
        forget-insert n (record e { vcluster_id = none }) (record (unseen e) { vcluster_id = none })
            s.enrollments refl,
      )
    ]

    pub move_node_vcluster-Factors :
        (v w : VClusterId) → Factors (move_node_vcluster n v w) (move_node_vcluster n v w) s
    unfolding move_node_vcluster forget
    move_node_vcluster-Factors v w = elim found [
      | inl p ↦ ground (arith, seen, same)
      | inr (e, p) ↦ ground (
        arith,
        seen,
        same,
        forget-insert n (record e { vcluster_id = some w })
            (record (unseen e) { vcluster_id = some w }) s.enrollments refl,
      )
    ]

    pub update_node_last_seen-Factors :
        (x : String) → Factors (update_node_last_seen lib n x) (update_node_last_seen lib n x) s
    unfolding update_node_last_seen forget
    update_node_last_seen-Factors x = elim found [
      | inl p ↦ ground (arith, seen, same)
      | inr (e, p) ↦ ground (
        arith,
        seen,
        same,
        forget-insert n (record e { last_seen = lib.parse_from_rfc3339 x })
            (record e { last_seen = lib.parse_from_rfc3339 x }) s.enrollments refl,
      )
    ]

    pub update_node_cert-Factors :
        (now : DateTime) (c x : String)
        → Factors (update_node_cert lib now n c x) (update_node_cert lib 0 n c x) s
    unfolding update_node_cert forget
    update_node_cert-Factors now c x = elim found [
      | inl p ↦ ground (arith, seen, same)
      | inr (e, p) ↦ ground (
        arith,
        seen,
        same,
        forget-insert n (renewed lib now c x e) (renewed lib 0 c x (unseen e)) s.enrollments refl,
      )
    ]
