-- ===== src/Journal/Replicas.antt =====
-- crates/pact-journal/src/raft/state.rs: replicas that apply one log at different moments. `apply`
-- reads the local clock in two handlers, so replicas are compared up to the time a node was last seen.
mod Handling
pub use Handling.{unseen}
unfoldable pub use Handling.{forget}
use Handling.{
  Factors, same, append_entry-Factors, set_overlay-Factors, decide_approval-Factors,
  register_node-Factors, activate_node-Factors, deactivate_node-Factors, revoke_node-Factors,
  assign_node_to_vcluster-Factors, unassign_node-Factors, move_node_vcluster-Factors,
  update_node_last_seen-Factors, update_node_cert-Factors,
}
use mathlib.Core.Option
use pact.Base.{
  ℕ, ◌≡◌, refl, sym, ◌∙◌, ap, ◌⊎◌, ◌≢◌, arith, inl, inr, Option-cases, Option, none, some, List, [],
  ◌∷◌, String_eq, String,
}
use pact.Base.Map.{
  Map, lookup, insert, map_values, lookup-map_values, map_values-insert, contains_key-map_values,
  map_values_idem, lookup-insert_self,
}
use pact.Types.{
  DateTime, NodeId, NodeEnrollment, ConfigEntry, VClusterId, BootOverlay, Identity, ApprovalStatus,
  EnrollmentState,
}
use pact.Journal.Command.{JournalCommand, JournalResponse}
use pact.Journal.State.{JournalState, Library}
use pact.Journal.Handlers.{
  Outcome, append_entry, set_overlay, record_operation, decide_approval, register_node,
  activate_node, deactivate_node, revoke_node, assign_node_to_vcluster, unassign_node, activated,
  renewed, move_node_vcluster, update_node_last_seen, update_node_cert,
}
use pact.Journal.Apply.{apply, replay}

-- Whatever the clock, a command does to the forgotten state what it does at time 0.
apply-Factors :
    (lib : Library) (now : DateTime) (cmd : JournalCommand) (s : JournalState)
    → Factors (apply lib now cmd) (apply lib 0 cmd) s
unfolding apply
apply-Factors lib now (JournalCommand.append_entry e) s = append_entry-Factors s e
apply-Factors lib now (JournalCommand.set_overlay v o) s = set_overlay-Factors s lib v o
apply-Factors lib now (JournalCommand.decide_approval i a d) s = decide_approval-Factors s i a d
apply-Factors lib now (JournalCommand.register_node e) s = register_node-Factors s e
apply-Factors lib now (JournalCommand.activate_node n c x) s = activate_node-Factors s lib n now c x
apply-Factors lib now (JournalCommand.deactivate_node n) s = deactivate_node-Factors s lib n
apply-Factors lib now (JournalCommand.revoke_node n) s = revoke_node-Factors s lib n
apply-Factors lib now (JournalCommand.assign_node_to_vcluster n v) s =
    assign_node_to_vcluster-Factors s lib n v
apply-Factors lib now (JournalCommand.unassign_node n) s = unassign_node-Factors s lib n
apply-Factors lib now (JournalCommand.move_node_vcluster n v w) s =
    move_node_vcluster-Factors s lib n v w
apply-Factors lib now (JournalCommand.update_node_last_seen n x) s =
    update_node_last_seen-Factors s lib n x
apply-Factors lib now (JournalCommand.update_node_cert n c x) s =
    update_node_cert-Factors s lib n now c x
apply-Factors lib now _ s = unfold forget record_operation in (simp (same s), refl)

-- One command, applied at two moments to states that agree.
pub apply_agree :
    (lib : Library) (n m : DateTime) (cmd : JournalCommand) (s t : JournalState)
    → forget s ≡ forget t
    → (forget (apply lib n cmd s).0 ≡ forget (apply lib m cmd t).0)
      × ((apply lib n cmd s).1 ≡ (apply lib m cmd t).1)
apply_agree lib n m cmd s t h = (
  (apply-Factors lib n cmd s).0
      ∙ ap (λ x. forget (apply lib 0 cmd x).0) h
      ∙ sym (apply-Factors lib m cmd t).0,
  (apply-Factors lib n cmd s).1
      ∙ ap (λ x. (apply lib 0 cmd x).1) h
      ∙ sym (apply-Factors lib m cmd t).1,
)

-- The commands of a log, without the moments at which they are applied.
abbrev pub commands : List (DateTime × JournalCommand) → List JournalCommand
commands [] = []
commands ((now, cmd) ∷ log) = cmd ∷ commands log

-- The responses that a replica computes along a log.
unfoldable pub responses :
    Library → List (DateTime × JournalCommand) → JournalState → List JournalResponse
responses lib [] s = []
responses lib ((now, cmd) ∷ log) s =
    (apply lib now cmd s).1 ∷ responses lib log (apply lib now cmd s).0

-- Two replicas whose states agree up to the times of last contact, and that apply the same
-- commands at whatever moments, answer each command alike and end in states that agree so too.
pub replicas_agree :
    (lib : Library) (log log' : List (DateTime × JournalCommand)) (s t : JournalState)
    → commands log ≡ commands log'
    → forget s ≡ forget t
    → (forget (replay lib log s) ≡ forget (replay lib log' t))
      × (responses lib log s ≡ responses lib log' t)
unfolding replay responses
replicas_agree lib [] [] s t same_log h = (h, refl)
replicas_agree lib [] ((m, c) ∷ r) s t same_log h = cc
replicas_agree lib ((m, c) ∷ r) [] s t same_log h = cc
replicas_agree lib ((n, c) ∷ log) ((m, d) ∷ log') s t same_log h =
    let now_same : apply lib m c t ≡ apply lib m d t = cc same_log in
    let (agree, answer) = apply_agree lib n m c s t h in
    let (states, answers) =
      replicas_agree lib log log' (apply lib n c s).0 (apply lib m d t).0 (cc same_log)
        (agree ∙ ap (λ o. forget o.0) now_same) in
    (states, cc (answer, now_same, answers))

-- Activating a registered or inactive node at two different moments gives two different states.
pub activation_depends_on_clock :
    (lib : Library) (n m : DateTime) (node : NodeId) (serial expires : String) (s : JournalState)
    {e : NodeEnrollment}
    → lookup node s.enrollments ≡ some e
    → (e.state ≡ EnrollmentState.registered) ⊎ (e.state ≡ EnrollmentState.inactive)
    → n ≢ m
    → (apply lib n (JournalCommand.activate_node node serial expires) s).0
      ≢ (apply lib m (JournalCommand.activate_node node serial expires) s).0
unfolding apply activate_node
activation_depends_on_clock lib n m node serial expires s {e} found open_state differ same_state =
    differ (
      ground (
        arith,
        ap (λ (x : JournalState). lookup node x.enrollments) same_state,
        lookup-insert_self node (activated lib n serial expires e) s.enrollments,
        lookup-insert_self node (activated lib m serial expires e) s.enrollments,
      ))
