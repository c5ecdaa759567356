-- ===== src/Journal/Heartbeat/Expiry.antt =====
-- crates/pact-journal/src/heartbeat.rs: what a check of the approvals does to them.
use mathlib.Core.Option
use pact.Base.{
  ltb, lt→ltb, ltb→lt, ◌<◌, ◌≢◌, true, ◌≡◌, refl, ◌∙◌, ap, ◌⊎◌, inl, inr, String, not, some, ◌==◌,
  String_eq, Bool-cases, Option-cases, ==_cases, ==_self, if◌then◌else◌,
}
use pact.Base.Map.{Each, lookup, insert, lookup-insert}
use pact.Base.Bindings.{IsDistinct}
use pact.Types.{DateTime, ApprovalStatus, PendingApproval, is_pending}
use pact.Journal.State.{JournalState, Library}
use pact.Journal.Handlers.{decide_approval}
use pact.Journal.Apply.{apply}
use pact.Journal.Raft.{Raft, IsAnswering}
use pact.Journal.Heartbeat.{system, overdue, expire, expire_approvals}
use pact.Journal.Heartbeat.Writes.{chosen, write_chosen-lookup}

-- The expiry of an approval that nobody decided; one whose requester is named as the system itself is
-- refused as a decision on one's own request.
unfoldable pub expired : PendingApproval → PendingApproval
expired a =
    if not (is_pending a.status)
    then a
    else if a.requester.principal == system.principal
    then a
    else record a { status = ApprovalStatus.expired; approver = some system }

expired_idem : (a : PendingApproval) → expired (expired a) ≡ expired a
unfolding expired
expired_idem a = elim (Bool-cases (is_pending a.status)) [
  | inr p ↦ rw p (rw p refl)
  | inl p ↦ elim (Bool-cases (a.requester.principal == system.principal)) [
    | inl q ↦ rw p (rw q (rw p (rw q refl)))
    | inr q ↦ rw p (rw q refl)
  ]
]

-- A decision of the system finds no approval, one that it leaves as it is, or one that it changes.
expire-approvals :
    (m : String) (s : JournalState)
    → (((decide_approval m system ApprovalStatus.expired s).0 ≡ s)
        × (Option.map expired (lookup m s.pending_approvals) ≡ lookup m s.pending_approvals))
      ⊎ ((a : PendingApproval) × (lookup m s.pending_approvals ≡ some a)
          × ((decide_approval m system ApprovalStatus.expired s).0.pending_approvals
              ≡ insert m (expired a) s.pending_approvals))
unfolding decide_approval expired
expire-approvals m s = elim (Option-cases (lookup m s.pending_approvals)) [
  | inl absent ↦ inl (rw (absent, decide_approval) refl, rw absent refl)
  | inr (a, found) ↦ elim (Bool-cases (is_pending a.status)) [
    | inr p ↦ inl (rw (found, decide_approval) (rw p refl), rw found (rw p refl))
    | inl p ↦ elim (Bool-cases (a.requester.principal == system.principal)) [
      | inl q ↦ inl (rw (found, decide_approval) (rw p (rw q refl)), rw found (rw p (rw q refl)))
      | inr q ↦ inr (a, found, rw (found, decide_approval) (rw p (rw q refl)))
    ]
  ]
]

-- What a decision of the system does to each approval.
expire-lookup :
    (m n : String) (s : JournalState)
    → lookup n (decide_approval m system ApprovalStatus.expired s).0.pending_approvals ≡ (
        if m == n
        then Option.map expired (lookup n s.pending_approvals)
        else lookup n s.pending_approvals)
expire-lookup m n s = elim (expire-approvals m s) [
  | inl (unchanged, same_one) ↦
      ap (λ (t : JournalState). lookup n t.pending_approvals) unchanged ∙ (elim (==_cases m n) [
        | inl same ↦ rw same (rw (==_self n) (cc (same_one, same)))
        | inr (differ, test) ↦ rw test refl
      ])
  | inr (a, found, put) ↦
      ap (lookup n) put ∙ lookup-insert n m (expired a) s.pending_approvals ∙ (elim (==_cases m n) [
        | inl same ↦ rw same (rw (==_self n) (cc (found, same)))
        | inr (differ, test) ↦ rw test refl
      ])
]

expire_approvals-lookup :
    {lib : Library} (raft : Raft lib)
    → IsAnswering raft
    → (now later : DateTime) (s : JournalState)
    → Each (λ n a. a.approval_id ≡ n) s.pending_approvals
    → IsDistinct s.pending_approvals
    → (n : String)
    → lookup n (expire_approvals raft now later s).pending_approvals
      ≡ Option.map (λ a. if overdue now a then expired a else a) (lookup n s.pending_approvals)
unfolding expire_approvals chosen
expire_approvals-lookup raft up now later s owned d n =
    write_chosen-lookup raft up later (λ t. t.pending_approvals) expire expired expired_idem
      (λ m k t. unfold apply in expire-lookup m k t) (λ a. a.approval_id) (overdue now) n s owned d

-- A pending approval past its expiry, whose requester is not named as the system itself.
pub record IsOverdue (now : DateTime) (a : PendingApproval) : Type 0 where
  pub open_still : a.status ≡ ApprovalStatus.pending
  pub late : a.expires_at < now
  pub requester : a.requester.principal ≢ "system"

overdue-cases :
    (now : DateTime) (a : PendingApproval)
    → (IsOverdue now a
        × ((if overdue now a then expired a else a)
            ≡ record a { status = ApprovalStatus.expired; approver = some system }))
      ⊎ ((¬ IsOverdue now a) × ((if overdue now a then expired a else a) ≡ a))
unfolding overdue expired
overdue-cases now a = elim (Bool-cases (is_pending a.status)) [
  | inr p ↦ inr (λ o. cc (p, o.open_still), rw p refl)
  | inl p ↦ elim (Bool-cases (ltb a.expires_at now)) [
    | inr q ↦ inr (λ o. cc (q, lt→ltb _ _ o.late), rw p (rw q refl))
    | inl q ↦ elim (==_cases a.requester.principal "system") [
      | inl r ↦ inr (λ o. o.requester r, rw p (rw q (rw ((String_eq.same_iff _ _).1 r) refl)))
      | inr (n, r) ↦ inl (
        record { open_still = pending_status a.status p; late = ltb→lt _ _ q; requester = n },
        rw p (rw q (rw r refl)),
      )
    ]
  ]
]
  where
    pending_status : (t : ApprovalStatus) → is_pending t ≡ true → t ≡ ApprovalStatus.pending
    pending_status ApprovalStatus.pending h = refl
    pending_status ApprovalStatus.approved h = cc
    pending_status ApprovalStatus.rejected h = cc
    pending_status ApprovalStatus.expired h = cc

-- While Raft answers every write, and each approval stands under its own id and is the only one there,
-- a check of the approvals treats each in one of two ways: one that is pending past its expiry, and
-- whose requester is not named as the system itself, is expired with the system as its approver; any
-- other is as it was.
pub expire_approvals-approvals :
    {lib : Library} (raft : Raft lib)
    → IsAnswering raft
    → (now later : DateTime) (s : JournalState)
    → Each (λ n a. a.approval_id ≡ n) s.pending_approvals
    → IsDistinct s.pending_approvals
    → (n : String) (a : PendingApproval) → lookup n s.pending_approvals ≡ some a
    → (IsOverdue now a
        × (lookup n (expire_approvals raft now later s).pending_approvals
            ≡ some (record a { status = ApprovalStatus.expired; approver = some system })))
      ⊎ ((¬ IsOverdue now a)
          × (lookup n (expire_approvals raft now later s).pending_approvals ≡ some a))
expire_approvals-approvals raft up now later s owned d n a found =
    let whole = expire_approvals-lookup raft up now later s owned d n in
    elim (overdue-cases now a) [
      | inl (late, p) ↦ inl (late, cc (whole, found, p))
      | inr (fine, p) ↦ inr (fine, cc (whole, found, p))
    ]
