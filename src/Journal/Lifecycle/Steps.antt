-- ===== src/Journal/Lifecycle/Steps.antt =====
-- crates/pact-journal/src/raft/state.rs: how each command may change the state of a node's
-- enrollment record.
use mathlib.Core.Option
use pact.Base.{
  ◌≡◌, sym, ◌∙◌, ap, subst, ◌⊎◌, inl, inr, Option, none, some, arith, String_eq, String, ==_cases,
}
use pact.Base.Map.{Map, lookup, insert, lookup-insert_self, lookup-insert_ne}
use pact.Types.{DateTime, NodeId, VClusterId, NodeEnrollment, EnrollmentState}
use pact.Journal.Command.{JournalCommand}
use pact.Journal.State.{JournalState, Library}
use pact.Journal.Handlers.{
  Outcome, register_node, activated, activate, activate_node, deactivate_node, revoke_node,
  assign_node_to_vcluster, unassign_node, move_node_vcluster, update_node_last_seen,
  update_node_cert, put_enrollment,
}
use pact.Journal.Hardware.{register_node-cases}
use pact.Journal.Invariant.{with_enrollment-rule}

-- The state of a node's record, if it has one.
abbrev status_in : NodeId → Map NodeId NodeEnrollment → Option EnrollmentState
status_in n records = Option.map (λ e. e.state) (lookup n records)

abbrev pub status : NodeId → JournalState → Option EnrollmentState
status n s = status_in n s.enrollments

-- How a command may change the state of node `n`: from the first to the second.
pub data Step (n : NodeId)
    : JournalCommand → Option EnrollmentState → Option EnrollmentState → Type 0 where
  stay : {cmd : JournalCommand} {o : Option EnrollmentState} → Step n cmd o o
  register :
      (e : NodeEnrollment)
      → e.node_id ≡ n
      → Step n (JournalCommand.register_node e) none (some e.state)
  activate_registered :
      {m : NodeId} (c x : String)
      → m ≡ n
      → Step n
          (JournalCommand.activate_node m c x)
          (some EnrollmentState.registered)
          (some EnrollmentState.active)
  activate_inactive :
      {m : NodeId} (c x : String)
      → m ≡ n
      → Step n
          (JournalCommand.activate_node m c x)
          (some EnrollmentState.inactive)
          (some EnrollmentState.active)
  deactivate :
      {m : NodeId} (o : EnrollmentState)
      → m ≡ n
      → Step n (JournalCommand.deactivate_node m) (some o) (some EnrollmentState.inactive)
  revoke :
      {m : NodeId} (o : EnrollmentState)
      → m ≡ n
      → Step n (JournalCommand.revoke_node m) (some o) (some EnrollmentState.revoked)

-- The record of `m` is written: its node takes the step given, every other node none.
update-Step :
    (n m : NodeId) (records : Map NodeId NodeEnrollment) (cmd : JournalCommand)
    (before after : NodeEnrollment)
    → lookup m records ≡ some before
    → (m ≡ n → Step n cmd (some before.state) (some after.state))
    → Step n cmd (status_in n records) (status_in n (insert m after records))
update-Step n m records cmd before after found step = elim (==_cases m n) [
  | inl p ↦ rw (← p) (rw (found, lookup-insert_self m after records) (rw p (step p)))
  | inr (p, _) ↦ rw (lookup-insert_ne n m after records p) stay
]

activate-cases :
    (lib : Library) (now : DateTime) (m : NodeId) (c x : String) (s : JournalState)
    (e : NodeEnrollment)
    → ((activate lib now m c x s e).0 ≡ s)
      ⊎ (((e.state ≡ EnrollmentState.registered) ⊎ (e.state ≡ EnrollmentState.inactive))
          × ((activate lib now m c x s e).0 ≡ put_enrollment m (activated lib now c x e) s))
unfolding activate
activate-cases lib now m c x s e = ground arith

Step-at :
    (n : NodeId) (cmd : JournalCommand) {a a' b b' : Option EnrollmentState}
    → a ≡ a'
    → b ≡ b'
    → Step n cmd a' b'
    → Step n cmd a b
Step-at n cmd {a' = a'} {b = b} p q step =
    subst (λ o. Step n cmd o b) (sym p) (subst (Step n cmd a') (sym q) step)

module _ (n : NodeId) (s : JournalState) where
  abbrev Takes : JournalCommand → Outcome → Type 0
  Takes cmd o = Step n cmd (status n s) (status n o.0)

  pub deactivate_node-Step :
      (m : NodeId) → Takes (JournalCommand.deactivate_node m) (deactivate_node m s)
  unfolding deactivate_node
  deactivate_node-Step m =
      with_enrollment-rule (Takes (JournalCommand.deactivate_node m)) m s _ stay
        λ e found. update-Step n m s.enrollments _ e _ found (λ p. deactivate e.state p)

  pub revoke_node-Step : (m : NodeId) → Takes (JournalCommand.revoke_node m) (revoke_node m s)
  unfolding revoke_node
  revoke_node-Step m =
      with_enrollment-rule (Takes (JournalCommand.revoke_node m)) m s _ stay
        λ e found. update-Step n m s.enrollments _ e _ found (λ p. revoke e.state p)

  pub assign_node_to_vcluster-Step :
      (m : NodeId) (v : VClusterId)
      → Takes (JournalCommand.assign_node_to_vcluster m v) (assign_node_to_vcluster m v s)
  unfolding assign_node_to_vcluster
  assign_node_to_vcluster-Step m v =
      with_enrollment-rule (Takes (JournalCommand.assign_node_to_vcluster m v)) m s _ stay
        λ e found. update-Step n m s.enrollments _ e _ found (λ p. stay)

  pub unassign_node-Step : (m : NodeId) → Takes (JournalCommand.unassign_node m) (unassign_node m s)
  unfolding unassign_node
  unassign_node-Step m =
      with_enrollment-rule (Takes (JournalCommand.unassign_node m)) m s _ stay
        λ e found. update-Step n m s.enrollments _ e _ found (λ p. stay)

  pub move_node_vcluster-Step :
      (m : NodeId) (from to : VClusterId)
      → Takes (JournalCommand.move_node_vcluster m from to) (move_node_vcluster m from to s)
  unfolding move_node_vcluster
  move_node_vcluster-Step m from to =
      with_enrollment-rule (Takes (JournalCommand.move_node_vcluster m from to)) m s _ stay
        λ e found. update-Step n m s.enrollments _ e _ found (λ p. stay)

  module _ (lib : Library) (m : NodeId) where
    pub update_node_last_seen-Step :
        (x : String)
        → Takes (JournalCommand.update_node_last_seen m x) (update_node_last_seen lib m x s)
    unfolding update_node_last_seen
    update_node_last_seen-Step x =
        with_enrollment-rule (Takes (JournalCommand.update_node_last_seen m x)) m s _ stay
          λ e found. update-Step n m s.enrollments _ e _ found (λ p. stay)

    module _ (now : DateTime) (c x : String) where
      pub update_node_cert-Step :
          Takes (JournalCommand.update_node_cert m c x) (update_node_cert lib now m c x s)
      unfolding update_node_cert
      update_node_cert-Step =
          with_enrollment-rule (Takes (JournalCommand.update_node_cert m c x)) m s _ stay
            λ e found. update-Step n m s.enrollments _ e _ found (λ p. stay)

      activation-Step :
          (e : NodeEnrollment)
          → lookup m s.enrollments ≡ some e
          → Takes (JournalCommand.activate_node m c x) (activate lib now m c x s e)
      activation-Step e found = elim (activate-cases lib now m c x s e) [
        | inl q ↦ rw q stay
        | inr (before, q) ↦ rw q (
            update-Step n m s.enrollments _ e (activated lib now c x e) found
              λ p. unfold activated in from before p)
      ]
        where
          from :
              (e.state ≡ EnrollmentState.registered) ⊎ (e.state ≡ EnrollmentState.inactive)
              → m ≡ n
              → Step n
                  (JournalCommand.activate_node m c x)
                  (some e.state)
                  (some EnrollmentState.active)
          from (inl r) p =
              subst
                (λ o.
                  Step n (JournalCommand.activate_node m c x) (some o)
                    (some EnrollmentState.active))
                (sym r) (activate_registered c x p)
          from (inr r) p =
              subst
                (λ o.
                  Step n (JournalCommand.activate_node m c x) (some o)
                    (some EnrollmentState.active))
                (sym r) (activate_inactive c x p)

      pub activate_node-Step :
          Takes (JournalCommand.activate_node m c x) (activate_node lib now m c x s)
      unfolding activate_node
      activate_node-Step =
          with_enrollment-rule (Takes (JournalCommand.activate_node m c x)) m s _ stay
            activation-Step

  pub register_node-Step :
      (e : NodeEnrollment) → Takes (JournalCommand.register_node e) (register_node e s)
  register_node-Step e = elim (register_node-cases e s) [
    | inl p ↦ rw p stay
    | inr (new, _, p) ↦ rw p (elim (==_cases e.node_id n) [
      | inl q ↦
          Step-at n _
            (ap (λ k. status_in k s.enrollments) (sym q) ∙ ap (Option.map (λ v. v.state)) new)
            (ap (λ k. status_in k (insert e.node_id e s.enrollments)) (sym q)
              ∙ ap (Option.map (λ v. v.state)) (lookup-insert_self e.node_id e s.enrollments))
            (register e q)
      | inr (q, _) ↦ rw (lookup-insert_ne n e.node_id e s.enrollments q) stay
    ])
  ]

  pub frame-Step :
      (cmd : JournalCommand) (t : JournalState)
      → t.enrollments ≡ s.enrollments
      → Step n cmd (status n s) (status n t)
  frame-Step cmd t p = rw p stay
