-- ===== src/Journal/Approvals.antt =====
-- crates/pact-journal/src/raft/state.rs: two-person approvals in the journal.
use pact.Base.{
  subst, ◌≡◌, refl, sym, ◌∙◌, ap, ◌≢◌, ◌⊎◌, inl, inr, none, some, List, [], ◌∷◌, arith, String_eq,
  String, ==_cases, Option-cases, false,
}
use pact.Base.Map.{Each, Each-insert, lookup, insert, lookup-insert_self, lookup-insert_ne}
use pact.Types.{
  DateTime, Identity, ApprovalStatus, PendingApproval, is_pending, pending, approved, rejected,
  expired,
}
use pact.Journal.Command.{
  JournalCommand, Reason, ok, validation_error, self_approval, approval_already, approval_not_found,
}
use pact.Journal.State.{JournalState, Library}
use pact.Journal.Handlers.{
  append_entry, set_overlay, record_operation, decide, decide_approval, register_node,
  activate_node, deactivate_node, revoke_node, assign_node_to_vcluster, unassign_node,
  move_node_vcluster, update_node_last_seen, update_node_cert,
}
use pact.Journal.Apply.{apply, replay}

-- The approval is open, and the one who decides is not the one who asked.
pub record MayDecide (approver : Identity) (a : PendingApproval) : Type 0 where
  pub open_ : a.status ≡ pending
  pub other : a.requester.principal ≢ approver.principal

-- The approval as it stands after its decision.
abbrev pub decided : Identity → ApprovalStatus → PendingApproval → PendingApproval
decided approver decision a = record a { status = decision; approver = some approver }

abbrev recorded : String → Identity → ApprovalStatus → JournalState → PendingApproval → JournalState
recorded id approver decision s a = record s {
  pending_approvals = insert id (decided approver decision a) s.pending_approvals;
}

pending_cases : (o : ApprovalStatus) → (o ≡ pending) ⊎ ((o ≢ pending) × (is_pending o ≡ false))
pending_cases pending = inl refl
pending_cases approved = inr (λ p. cc, refl)
pending_cases rejected = inr (λ p. cc, refl)
pending_cases expired = inr (λ p. cc, refl)

-- What `decide` does to the approval that it finds.
abbrev Accepts : String → Identity → ApprovalStatus → JournalState → PendingApproval → Type 0
Accepts id approver d s a =
    MayDecide approver a × (decide id approver d s a ≡ (recorded id approver d s a, ok))

abbrev Refuses : String → Identity → ApprovalStatus → JournalState → PendingApproval → Type 0
Refuses id approver d s a =
    (¬ MayDecide approver a) × ((r : Reason) × (decide id approver d s a ≡ (s, validation_error r)))

module _ (id : String) (approver : Identity) (d : ApprovalStatus) (s : JournalState) where
  decide-cases : (a : PendingApproval) → Accepts id approver d s a ⊎ Refuses id approver d s a
  unfolding decide
  decide-cases a = elim (pending_cases a.status) [
    | inl q ↦ elim (==_cases a.requester.principal approver.principal) [
      | inl p ↦ inr (
        λ m. m.other p,
        (
          self_approval,
          ground (arith, String_eq.same_iff a.requester.principal approver.principal),
        ),
      )
      | inr (p, e) ↦ inl (record { open_ = q; other = p }, ground (arith, e, q))
    ]
    | inr (q, e) ↦ inr (λ m. q m.open_, (approval_already id a.status, rw (e, decide) refl))
  ]

  on_found :
      (a : PendingApproval)
      → lookup id s.pending_approvals ≡ some a
      → decide_approval id approver d s ≡ decide id approver d s a
  unfolding decide_approval
  on_found a p = rw (p, decide_approval)

  on_missing :
      lookup id s.pending_approvals ≡ none
      → decide_approval id approver d s ≡ (s, validation_error (approval_not_found id))
  unfolding decide_approval
  on_missing p = rw (p, decide_approval)

  -- The state and the answer of a decision, for the approval under its id.
  decide_approval-cases :
      ((a : PendingApproval) × (lookup id s.pending_approvals ≡ some a)
        × MayDecide approver a
        × (decide_approval id approver d s ≡ (recorded id approver d s a, ok)))
      ⊎ (((a : PendingApproval) → lookup id s.pending_approvals ≡ some a → ¬ MayDecide approver a)
          × ((r : Reason) × (decide_approval id approver d s ≡ (s, validation_error r))))
  decide_approval-cases = elim (Option-cases (lookup id s.pending_approvals)) [
    | inl p ↦ inr (λ a q. cc (p, q), (approval_not_found id, on_missing p))
    | inr (a, p) ↦ elim (decide-cases a) [
      | inl (m, q) ↦ inl (a, p, m, on_found a p ∙ q)
      | inr (m, (r, q)) ↦ inr (
        λ b f may. let same : b ≡ a = cc (f, p) in m (subst (MayDecide approver) same may),
        (r, on_found a p ∙ q),
      )
    ]
  ]

  -- The decision on a pending approval, by another principal than its requester, is recorded with the
  -- one who took it, and the approvals under other ids stay as they are.
  pub decide_approval-records :
      (a : PendingApproval) (j : String)
      → lookup id s.pending_approvals ≡ some a
      → MayDecide approver a
      → id ≢ j
      → (lookup id (decide_approval id approver d s).0.pending_approvals
          ≡ some (decided approver d a))
        × (lookup j (decide_approval id approver d s).0.pending_approvals
            ≡ lookup j s.pending_approvals)
  decide_approval-records a j found may ne = elim (decide-cases a) [
    | inl (m, q) ↦
        let p = on_found a found ∙ q in
        (
          rw p (lookup-insert_self id (decided approver d a) s.pending_approvals),
          rw p (lookup-insert_ne j id (decided approver d a) s.pending_approvals ne),
        )
    | inr (m, q) ↦ absurd (m may)
  ]

  -- An approval that is no longer open is left alone.
  keeps_decided :
      (j : String) (a : PendingApproval)
      → lookup j s.pending_approvals ≡ some a
      → a.status ≢ pending
      → lookup j (decide_approval id approver d s).0.pending_approvals ≡ some a
  keeps_decided j a found closed = elim decide_approval-cases [
    | inl (b, p, m, q) ↦ elim (==_cases id j) [
      | inl e ↦ absurd (closed (cc (e, found, p, m.open_)))
      | inr (e, _) ↦
          rw q (lookup-insert_ne j id (decided approver d b) s.pending_approvals e ∙ found)
    ]
    | inr (m, (r, q)) ↦ rw q found
  ]

-- No command of the log creates an approval under this id.
abbrev pub NotCreated : String → List (DateTime × JournalCommand) → Type 0
NotCreated id [] = Unit
NotCreated id ((now, JournalCommand.create_approval a) ∷ log) =
    (a.approval_id ≢ id) × NotCreated id log
NotCreated id ((now, cmd) ∷ log) = NotCreated id log

-- A command that neither creates nor decides leaves the approvals alone.
abbrev IsQuiet : JournalCommand → Type 0
IsQuiet (JournalCommand.create_approval a) = ⊥
IsQuiet (JournalCommand.decide_approval i a d) = ⊥
IsQuiet cmd = Unit

apply-quiet :
    (lib : Library) (now : DateTime) (cmd : JournalCommand) (s : JournalState)
    → IsQuiet cmd
    → (apply lib now cmd s).0.pending_approvals ≡ s.pending_approvals
unfolding apply append_entry set_overlay record_operation register_node activate_node
    deactivate_node revoke_node assign_node_to_vcluster unassign_node move_node_vcluster
    update_node_last_seen update_node_cert
apply-quiet lib now (JournalCommand.create_approval a) s h = absurd h
apply-quiet lib now (JournalCommand.decide_approval i a d) s h = absurd h
apply-quiet lib now _ s h = ground arith

-- Along every log that creates no approval under its id, an approval that is no longer pending stays
-- as it is: its status and the one who decided it never change.
pub decided_is_final :
    (lib : Library) (log : List (DateTime × JournalCommand)) (id : String) (s : JournalState)
    {a : PendingApproval}
    → NotCreated id log
    → lookup id s.pending_approvals ≡ some a
    → a.status ≢ pending
    → lookup id (replay lib log s).pending_approvals ≡ some a
unfolding replay
decided_is_final lib [] id s never found closed = found
decided_is_final lib ((now, JournalCommand.create_approval b) ∷ log) id s {a} never found closed =
    decided_is_final lib log id (apply lib now (JournalCommand.create_approval b) s).0 never.1
      (unfold apply in lookup-insert_ne id b.approval_id b s.pending_approvals never.0 ∙ found)
      closed
decided_is_final lib ((now, JournalCommand.decide_approval i w d) ∷ log) id s {a} never found
      closed =
    decided_is_final lib log id (apply lib now (JournalCommand.decide_approval i w d) s).0 never
      (unfold apply in keeps_decided i w d s id a found closed) closed
decided_is_final lib ((now, cmd) ∷ log) id s never found closed =
    decided_is_final lib log id (apply lib now cmd s).0 never
      (rw (apply-quiet lib now cmd s tt) found) closed

-- The one who decided is not the one who asked.
abbrev pub IsTwoPerson : PendingApproval → Type 0
IsTwoPerson a = (who : Identity) → a.approver ≡ some who → a.requester.principal ≢ who.principal

-- The approvals that the log creates have no approver, or another person for it.
abbrev pub CreatesTwoPerson : List (DateTime × JournalCommand) → Type 0
CreatesTwoPerson [] = Unit
CreatesTwoPerson ((now, JournalCommand.create_approval a) ∷ log) =
    IsTwoPerson a × CreatesTwoPerson log
CreatesTwoPerson ((now, cmd) ∷ log) = CreatesTwoPerson log

decide_approval-IsTwoPerson :
    (id : String) (approver : Identity) (d : ApprovalStatus) (s : JournalState)
    → Each (λ k a. IsTwoPerson a) s.pending_approvals
    → Each (λ k a. IsTwoPerson a) (decide_approval id approver d s).0.pending_approvals
decide_approval-IsTwoPerson id approver d s h = elim (decide_approval-cases id approver d s) [
  | inl (a, p, m, q) ↦ rw q (
      Each-insert (λ k a. IsTwoPerson a) id (decided approver d a) s.pending_approvals h
        λ who e same.
          let by : approver ≡ who = cc e in
          m.other (same ∙ ap (λ (w : Identity). w.principal) (sym by)))
  | inr (m, (r, q)) ↦ rw q h
]

-- Let no approval of the state, and none that the log creates, have its requester for its approver.
-- Then no approval has its requester for its approver after the log.
pub replay-IsTwoPerson :
    (lib : Library) (log : List (DateTime × JournalCommand)) (s : JournalState)
    → CreatesTwoPerson log
    → Each (λ id a. IsTwoPerson a) s.pending_approvals
    → Each (λ id a. IsTwoPerson a) (replay lib log s).pending_approvals
unfolding replay
replay-IsTwoPerson lib [] s fresh h = h
replay-IsTwoPerson lib ((now, JournalCommand.create_approval b) ∷ log) s fresh h =
    replay-IsTwoPerson lib log (apply lib now (JournalCommand.create_approval b) s).0 fresh.1 (
      unfold apply in
      Each-insert (λ k a. IsTwoPerson a) b.approval_id b s.pending_approvals h fresh.0)
replay-IsTwoPerson lib ((now, JournalCommand.decide_approval i w d) ∷ log) s fresh h =
    replay-IsTwoPerson lib log (apply lib now (JournalCommand.decide_approval i w d) s).0 fresh
      (unfold apply in decide_approval-IsTwoPerson i w d s h)
replay-IsTwoPerson lib ((now, cmd) ∷ log) s fresh h =
    replay-IsTwoPerson lib log (apply lib now cmd s).0 fresh (rw (apply-quiet lib now cmd s tt) h)
