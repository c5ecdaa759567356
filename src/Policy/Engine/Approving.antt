-- ===== src/Policy/Engine/Approving.antt =====
-- crates/pact-policy/src/rules/mod.rs: who may approve, and what an approval guarantees later.
use Prim.Native.String.{◌++◌}
use pact.Base.{
  ◌≤◌, String, String_eq, true, some, ◌≡◌, ◌≢◌, ◌⊎◌, ◌↔◌, inl, inr, refl, arith, ltb, Bool-cases,
  ==_cases,
}
use pact.Types.{
  DateTime, Identity, PendingApproval, ApprovalStatus, is_pending, pending, approved, rejected,
  expired,
}
use pact.Policy.Engine.{
  DefaultPolicyEngine, PolicyDecision, PolicyError, allowed, approve_found, approver_has_access,
  scope_vcluster, resolve, approval_expired, approval_already_resolved, self_approval,
  insufficient_privileges,
}

-- The approval is open and in time, and the approver is another person with access to its scope.
pub record MayApprove (now : DateTime) (approver : Identity) (a : PendingApproval) : Type 0 where
  pub in_time : now ≤ a.expires_at
  pub open_ : a.status ≡ pending
  pub other : a.requester.principal ≢ approver.principal
  pub access : approver_has_access approver (scope_vcluster a.scope) ≡ true

pub is_pending_iff : (o : ApprovalStatus) → (is_pending o ≡ true) ↔ (o ≡ pending)
is_pending_iff pending = (λ p. refl, λ p. refl)
is_pending_iff approved = (λ p. cc, λ p. cc)
is_pending_iff rejected = (λ p. cc, λ p. cc)
is_pending_iff expired = (λ p. cc, λ p. cc)

module _ (now : DateTime) (id : String) (approver : Identity) (e : DefaultPolicyEngine) where
  abbrev Grants : PendingApproval → Type 0
  Grants a =
      MayApprove now approver a
      × ((d : PolicyDecision) × (approve_found now id approver a e
            ≡ (resolve id approved (some approver) a e, inr d)))

  -- An error leaves the engine as it is, or marks the approval expired.
  abbrev Declines : PendingApproval → Type 0
  Declines a =
      (MayApprove now approver a → ⊥)
      × ((r : PolicyError) × ((approve_found now id approver a e ≡ (e, inl r))
            ⊎ (approve_found now id approver a e ≡ (resolve id expired a.approver a e, inl r))))

  pub approve_found-cases : (a : PendingApproval) → Grants a ⊎ Declines a
  unfolding approve_found
  approve_found-cases a = elim (Bool-cases (ltb a.expires_at now)) [
    | inl late ↦ inr (
      (λ m. let h = m.in_time in absurd (ground arith)),
      (approval_expired id, inr (rw (approve_found, late) refl)),
    )
    | inr timely ↦ elim (Bool-cases (is_pending a.status)) [
      | inr closed ↦ inr (
        (λ m. cc (closed, (is_pending_iff a.status).1 m.open_)),
        (approval_already_resolved id, inl (rw (approve_found, timely, closed) refl)),
      )
      | inl waits ↦ elim (==_cases a.requester.principal approver.principal) [
        | inl p ↦ inr (
          (λ m. m.other p),
          (
            self_approval,
            inl (
                rw
                  (
                    approve_found,
                    timely,
                    waits,
                    (String_eq.same_iff a.requester.principal approver.principal).1 p,
                  )
                  refl),
          ),
        )
        | inr (n, f) ↦ elim (Bool-cases (approver_has_access approver (scope_vcluster a.scope))) [
          | inr lacks ↦ inr (
            (λ m. let h = m.access in cc (lacks, h)),
            (
              insufficient_privileges approver.role (scope_vcluster a.scope),
              inl (rw (approve_found, timely, waits, f, lacks) refl),
            ),
          )
          | inl has ↦ inl (
            record {
              in_time = ground arith;
              open_ = (is_pending_iff a.status).0 waits;
              other = n;
              access = has;
            },
            (allowed ("approved:" ++ id), rw (approve_found, timely, waits, f, has) refl),
          )
        ]
      ]
    ]
  ]
