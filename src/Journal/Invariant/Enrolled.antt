-- ===== src/Journal/Invariant/Enrolled.antt =====
-- crates/pact-journal/src/raft/state.rs: well-formed states, and the handlers of one node's record.
use pact.Base.{◌≤◌, ◌≡◌, refl, ◌⊎◌, inl, inr, Option-cases, some, length, arith, String_eq, String}
use pact.Base.Map.{Map, lookup, insert}
use pact.Types.{
  DateTime, NodeId, VClusterId, ConfigEntry, NodeEnrollment, BootOverlay, Identity, ApprovalStatus,
}
use pact.Journal.Command.{node_not_enrolled}
use pact.Journal.State.{JournalState, Library, audit_log_max}
use pact.Journal.Handlers.{
  Outcome, refuse, with_enrollment, put_enrollment, append_entry, set_overlay, decide_approval,
  register_node, activated, activate, activate_node, deactivate_node, revoke_node,
  assign_node_to_vcluster, unassign_node, move_node_vcluster, update_node_last_seen, renewed,
  update_node_cert,
}
use pact.Journal.Entries.{IsJournal}
use pact.Journal.Limits.{AreSound}
use pact.Journal.Hardware.{IsRegistry, IsRegistry-update}

pub record IsWellFormed (lib : Library) (s : JournalState) : Type 0 where
  pub journal : IsJournal s.next_sequence s.entries
  pub overlays : AreSound lib s.overlays
  pub audit_log : length s.audit_log ≤ audit_log_max
  pub registry : IsRegistry s.enrollments s.hw_index

-- `get_mut`: the unknown node, and the record that is found.
pub with_enrollment-rule {ℓ} :
    (P : Outcome → Type ℓ) (n : NodeId) (s : JournalState) (body : NodeEnrollment → Outcome)
    → P (refuse (node_not_enrolled n) s)
    → ((e : NodeEnrollment) → lookup n s.enrollments ≡ some e → P (body e))
    → P (with_enrollment n s body)
with_enrollment-rule P n s body missing found = elim (Option-cases (lookup n s.enrollments)) [
  | inl p ↦ rw (p, with_enrollment) missing
  | inr (e, p) ↦ rw (p, with_enrollment) (found e p)
]

activate-cases :
    (lib : Library) (now : DateTime) (n : NodeId) (c x : String) (s : JournalState)
    (e : NodeEnrollment)
    → ((activate lib now n c x s e).0 ≡ s)
      ⊎ ((activate lib now n c x s e).0 ≡ put_enrollment n (activated lib now c x e) s)
unfolding activate
activate-cases lib now n c x s e = ground arith

-- The fields that a handler leaves alone.
pub append_entry-frame :
    (e : ConfigEntry) (s : JournalState)
    → let t = (append_entry e s).0 in
      t ≡ record s { entries = t.entries; next_sequence = t.next_sequence }
unfolding append_entry
append_entry-frame e s = ground arith

pub set_overlay-frame :
    (lib : Library) (v : VClusterId) (o : BootOverlay) (s : JournalState)
    → let t = (set_overlay lib v o s).0 in t ≡ record s { overlays = t.overlays }
unfolding set_overlay
set_overlay-frame lib v o s = ground arith

pub decide_approval-frame :
    (i : String) (a : Identity) (d : ApprovalStatus) (s : JournalState)
    → let t = (decide_approval i a d s).0 in
      t ≡ record s { pending_approvals = t.pending_approvals }
unfolding decide_approval
decide_approval-frame i a d s = ground arith

pub register_node-frame :
    (e : NodeEnrollment) (s : JournalState)
    → let t = (register_node e s).0 in
      t ≡ record s { enrollments = t.enrollments; hw_index = t.hw_index }
unfolding register_node
register_node-frame e s = ground arith

module _ (lib : Library) (s : JournalState) (w : IsWellFormed lib s) where
  pub update-IsWellFormed :
      (n : NodeId) (e e' : NodeEnrollment) (assignments : Map NodeId VClusterId)
      → lookup n s.enrollments ≡ some e
      → e'.node_id ≡ e.node_id
      → e'.hardware_identity ≡ e.hardware_identity
      → IsWellFormed lib
          (record s { enrollments = insert n e' s.enrollments; node_assignments = assignments })
  update-IsWellFormed n e e' assignments found same_id same_hw = record {
    journal = w.journal;
    overlays = w.overlays;
    audit_log = w.audit_log;
    registry = IsRegistry-update s.enrollments s.hw_index w.registry n e e' found same_id same_hw;
  }

  pub activate_node-IsWellFormed :
      (now : DateTime) (n : NodeId) (c x : String)
      → IsWellFormed lib (activate_node lib now n c x s).0
  unfolding activate_node
  activate_node-IsWellFormed now n c x =
      with_enrollment-rule (λ o. IsWellFormed lib o.0) n s _ w
        λ e found. elim (activate-cases lib now n c x s e) [
          | inl p ↦ rw p w
          | inr p ↦ rw p (unfold activated in update-IsWellFormed n e _ _ found refl refl)
        ]

  pub deactivate_node-IsWellFormed : (n : NodeId) → IsWellFormed lib (deactivate_node n s).0
  unfolding deactivate_node
  deactivate_node-IsWellFormed n =
      with_enrollment-rule (λ o. IsWellFormed lib o.0) n s _ w
        λ e found. update-IsWellFormed n e _ _ found refl refl

  pub revoke_node-IsWellFormed : (n : NodeId) → IsWellFormed lib (revoke_node n s).0
  unfolding revoke_node
  revoke_node-IsWellFormed n =
      with_enrollment-rule (λ o. IsWellFormed lib o.0) n s _ w
        λ e found. update-IsWellFormed n e _ _ found refl refl

  pub assign_node_to_vcluster-IsWellFormed :
      (n : NodeId) (v : VClusterId) → IsWellFormed lib (assign_node_to_vcluster n v s).0
  unfolding assign_node_to_vcluster
  assign_node_to_vcluster-IsWellFormed n v =
      with_enrollment-rule (λ o. IsWellFormed lib o.0) n s _ w
        λ e found. update-IsWellFormed n e _ _ found refl refl

  pub unassign_node-IsWellFormed : (n : NodeId) → IsWellFormed lib (unassign_node n s).0
  unfolding unassign_node
  unassign_node-IsWellFormed n =
      with_enrollment-rule (λ o. IsWellFormed lib o.0) n s _ w
        λ e found. update-IsWellFormed n e _ _ found refl refl

  pub move_node_vcluster-IsWellFormed :
      (n : NodeId) (from to : VClusterId) → IsWellFormed lib (move_node_vcluster n from to s).0
  unfolding move_node_vcluster
  move_node_vcluster-IsWellFormed n from to =
      with_enrollment-rule (λ o. IsWellFormed lib o.0) n s _ w
        λ e found. update-IsWellFormed n e _ _ found refl refl

  pub update_node_last_seen-IsWellFormed :
      (n : NodeId) (x : String) → IsWellFormed lib (update_node_last_seen lib n x s).0
  unfolding update_node_last_seen
  update_node_last_seen-IsWellFormed n x =
      with_enrollment-rule (λ o. IsWellFormed lib o.0) n s _ w
        λ e found. update-IsWellFormed n e _ _ found refl refl

  pub update_node_cert-IsWellFormed :
      (n : NodeId) (now : DateTime) (c x : String)
      → IsWellFormed lib (update_node_cert lib now n c x s).0
  unfolding update_node_cert
  update_node_cert-IsWellFormed n now c x =
      with_enrollment-rule (λ o. IsWellFormed lib o.0) n s _ w
        λ e found. unfold renewed in update-IsWellFormed n e _ _ found refl refl
