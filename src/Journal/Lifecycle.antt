-- ===== src/Journal/Lifecycle.antt =====
-- crates/pact-journal/src/raft/state.rs: the life of one node's enrollment record, command by command.
mod Steps
pub use Steps.{Step, status}
use Steps.{
  stay, register, activate_registered, activate_inactive, deactivate, revoke, deactivate_node-Step,
  revoke_node-Step, assign_node_to_vcluster-Step, unassign_node-Step, move_node_vcluster-Step,
  update_node_last_seen-Step, update_node_cert-Step, activate_node-Step, register_node-Step,
  frame-Step,
}
use mathlib.Core.Option
use pact.Base.{
  ◌≡◌, refl, sym, ◌∙◌, ap, subst, ◌≢◌, ◌⊎◌, inl, inr, Option, none, some, List, [], ◌∷◌, arith,
  String_eq, String, ==_cases, Option-cases,
}
use pact.Base.Map.{Map, lookup, insert, lookup-insert_self, lookup-insert_ne}
use pact.Types.{DateTime, NodeId, VClusterId, NodeEnrollment, EnrollmentState}
use pact.Journal.Command.{JournalCommand, enrollment_result}
use pact.Journal.State.{JournalState, Library}
use pact.Journal.Handlers.{
  Outcome, append_entry, set_overlay, record_operation, decide_approval, register_node, activated,
  activate, activate_node, deactivate_node, revoke_node, assign_node_to_vcluster, unassign_node,
  move_node_vcluster, update_node_last_seen, update_node_cert, put_enrollment,
}
use pact.Journal.Apply.{apply, replay}
use pact.Journal.Hardware.{register_node-cases}
use pact.Journal.Invariant.{with_enrollment-rule}

-- Whatever the command, each node's record stays in its state or takes a step of the life cycle: it is
-- created by its registration, in the state that the registration carries; it goes from registered or
-- inactive to active by its activation, from any state to inactive by its deactivation and to revoked
-- by its revocation. No other command changes it, and it is never lost.
pub apply-Step :
    (lib : Library) (now : DateTime) (cmd : JournalCommand) (s : JournalState) (n : NodeId)
    → Step n cmd (status n s) (status n (apply lib now cmd s).0)
unfolding apply
apply-Step lib now (JournalCommand.append_entry e) s n =
    frame-Step n s _ (append_entry e s).0 (unfold append_entry in ground arith)
apply-Step lib now (JournalCommand.set_overlay v o) s n =
    frame-Step n s _ (set_overlay lib v o s).0 (unfold set_overlay in ground arith)
apply-Step lib now (JournalCommand.decide_approval i a d) s n =
    frame-Step n s _ (decide_approval i a d s).0 (unfold decide_approval in ground arith)
apply-Step lib now (JournalCommand.register_node e) s n = register_node-Step n s e
apply-Step lib now (JournalCommand.activate_node m c x) s n = activate_node-Step n s lib m now c x
apply-Step lib now (JournalCommand.deactivate_node m) s n = deactivate_node-Step n s m
apply-Step lib now (JournalCommand.revoke_node m) s n = revoke_node-Step n s m
apply-Step lib now (JournalCommand.assign_node_to_vcluster m v) s n =
    assign_node_to_vcluster-Step n s m v
apply-Step lib now (JournalCommand.unassign_node m) s n = unassign_node-Step n s m
apply-Step lib now (JournalCommand.move_node_vcluster m from to) s n =
    move_node_vcluster-Step n s m from to
apply-Step lib now (JournalCommand.update_node_last_seen m x) s n =
    update_node_last_seen-Step n s lib m x
apply-Step lib now (JournalCommand.update_node_cert m c x) s n =
    update_node_cert-Step n s lib m now c x
apply-Step lib now _ s n = unfold record_operation in stay

-- No command of the log deactivates the node.
abbrev pub NeverDeactivated : NodeId → List (DateTime × JournalCommand) → Type 0
NeverDeactivated n [] = Unit
NeverDeactivated n ((now, cmd) ∷ log) =
    (cmd ≢ JournalCommand.deactivate_node n) × NeverDeactivated n log

revoked_Step :
    (n : NodeId) {cmd : JournalCommand} {o p : Option EnrollmentState}
    → Step n cmd o p
    → o ≡ some EnrollmentState.revoked
    → cmd ≢ JournalCommand.deactivate_node n
    → p ≡ some EnrollmentState.revoked
revoked_Step n stay h never = h
revoked_Step n (register e q) h never = cc
revoked_Step n (activate_registered c x q) h never = cc
revoked_Step n (activate_inactive c x q) h never = cc
revoked_Step n (deactivate o q) h never = absurd (never (ap JournalCommand.deactivate_node q))
revoked_Step n (revoke o q) h never = refl

-- A revoked node stays revoked along every log without a deactivation of it, activations included.
pub revoked_stays :
    (lib : Library) (log : List (DateTime × JournalCommand)) (n : NodeId) (s : JournalState)
    → NeverDeactivated n log
    → status n s ≡ some EnrollmentState.revoked
    → status n (replay lib log s) ≡ some EnrollmentState.revoked
unfolding replay
revoked_stays lib [] n s never h = h
revoked_stays lib ((now, cmd) ∷ log) n s never h =
    revoked_stays lib log n (apply lib now cmd s).0 never.1
      (revoked_Step n (apply-Step lib now cmd s n) h never.0)

-- A revoked node is active again after a deactivation of it and then an activation, at any two moments,
-- and the activation answers so.
pub revoked_returns :
    (lib : Library) (now later : DateTime) (n : NodeId) (serial expires : String) (s : JournalState)
    → status n s ≡ some EnrollmentState.revoked
    → let t = (apply lib now (JournalCommand.deactivate_node n) s).0 in
      let (u, answer) = apply lib later (JournalCommand.activate_node n serial expires) t in
      (status n u ≡ some EnrollmentState.active)
      × ((v : Option VClusterId) × (answer ≡ enrollment_result n EnrollmentState.active v))
unfolding apply deactivate_node activate_node
revoked_returns lib now later n serial expires s h = elim (Option-cases (lookup n s.enrollments)) [
  | inl p ↦ cc (h, p)
  | inr (e, p) ↦
      let gone : NodeEnrollment = record e { state = EnrollmentState.inactive } in
      let first = lookup-insert_self n gone s.enrollments in
      let second =
        lookup-insert_self n (activated lib later serial expires gone)
          (insert n gone s.enrollments) in
      (ground (arith, p, first, second), (e.vcluster_id, ground (arith, p, first)))
]
