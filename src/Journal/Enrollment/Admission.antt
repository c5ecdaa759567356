-- ===== src/Journal/Enrollment/Admission.antt =====
-- crates/pact-journal/src/enrollment_service.rs: to whom `enroll` gives a certificate.
use pact.Base.{
  ◌≡◌, refl, ◌∙◌, ap, ◌⊎◌, inl, inr, ℕ, String, String_eq, List, Option, none, some, Bool-cases,
  Option-cases, arith,
}
use pact.Base.Map.{lookup, lookup-insert_self}
use pact.Types.{NodeId, VClusterId, DateTime, NodeEnrollment, EnrollmentState, AdminOperation}
use pact.Journal.Command.{JournalCommand, JournalResponse}
use pact.Journal.State.{JournalState, Library, hw_canonical_key}
use pact.Journal.Handlers.{activate_node, activate, activated}
use pact.Journal.Apply.{apply}
use pact.Journal.Lifecycle.{Step, apply-Step, status}
use pact.Journal.Raft.{Raft, WriteResult, Written}
use pact.Journal.Wire.{answer}
use pact.Journal.Authority.{Signing}
use pact.Journal.RateLimiter.{Floats, RateLimiter, try_acquire}
use pact.Journal.Enrollment.{
  ProtoHardware, CallTime, EnrollmentService, proto_hw_to_domain, audit_enrollment,
}
use pact.Journal.Enrollment.Calls.{update_cert}
use pact.Journal.Enrollment.Enroll.{
  EnrollResponse, audit, certified, activated_reply, activation, enroll_node, enroll_hardware,
  enroll,
}

update_cert-status :
    (n m : NodeId) (c x : String) {a b : Option EnrollmentState}
    → Step n (JournalCommand.update_node_cert m c x) a b
    → b ≡ a
update_cert-status n m c x Step.stay = refl

record-status :
    (n : NodeId) (op : AdminOperation) {a b : Option EnrollmentState}
    → Step n (JournalCommand.record_operation op) a b
    → b ≡ a
record-status n op Step.stay = refl

-- A write of a command that does not change a node's state leaves it, whatever becomes of the write.
client_write-status :
    {lib : Library} (raft : Raft lib) (now : DateTime) (cmd : JournalCommand) (n : NodeId)
    (s : JournalState)
    → status n (apply lib now cmd s).0 ≡ status n s
    → status n (raft.client_write now cmd s).0 ≡ status n s
client_write-status raft now cmd n s same = elim (raft.client_write-IsWrite now cmd s) [
  | inl e ↦ ap (λ (w : Written). status n w.0) e ∙ same
  | inr (text, e, o) ↦ elim o [
    | inl q ↦ ap (λ (t : JournalState). status n t) q
    | inr q ↦ ap (λ (t : JournalState). status n t) q ∙ same
  ]
]

-- A registered or inactive node becomes active by its activation.
activation-status :
    (lib : Library) (now : DateTime) (n : NodeId) (c x : String) (s : JournalState)
    (e : NodeEnrollment)
    → lookup n s.enrollments ≡ some e
    → (e.state ≡ EnrollmentState.registered) ⊎ (e.state ≡ EnrollmentState.inactive)
    → status n (apply lib now (JournalCommand.activate_node n c x) s).0
      ≡ some EnrollmentState.active
unfolding apply activate_node activate activated
activation-status lib now n c x s e found fit =
    ground (arith, lookup-insert_self n (activated lib now c x e) s.enrollments)

module _ {lib : Library} (svc : EnrollmentService lib) (call : CallTime) where
  audit-status :
      (n : NodeId) (node_id : NodeId) (detail : String) (s : JournalState)
      → status n (audit svc call node_id detail s) ≡ status n s
  unfolding audit_enrollment
  audit-status n node_id detail s =
      client_write-status svc.raft call.later _ n s
        (record-status n _ (apply-Step lib call.later (JournalCommand.record_operation _) s n))

  certified-status :
      (n : NodeId) (v : Option VClusterId) (cert : Signing) (s : JournalState) {r : EnrollResponse}
      → (certified svc call n v cert s).1 ≡ answer r
      → (r.node_id ≡ n) × (status n (certified svc call n v cert s).0 ≡ status n s)
  unfolding certified
  certified-status n v (Signing.signing_failed text) s h = cc
  certified-status n v (Signing.signed cert) s {r} h = (
    cc h,
    audit-status n n _ (svc.raft.client_write call.later (update_cert n cert) s).0
        ∙ client_write-status svc.raft call.later (update_cert n cert) n s (
            update_cert-status n n cert.cert_serial cert.cert_expires_at
              (apply-Step lib call.later (update_cert n cert) s n)),
  )

  -- A node that is given its certificate was activated by Raft before.
  activated_reply-status :
      (n : NodeId) (csr : List ℕ) (w : Written) {r : EnrollResponse}
      → (activated_reply svc call n csr w).1 ≡ answer r
      → (r.node_id ≡ n)
        × ((m : NodeId) × (t : EnrollmentState) × (v : Option VClusterId) × (w.1
              ≡ WriteResult.response (JournalResponse.enrollment_result m t v)))
        × (status n (activated_reply svc call n csr w).0 ≡ status n w.0)
  unfolding activated_reply
  activated_reply-status n csr (s, WriteResult.failed text) h = cc
  activated_reply-status n csr (s, WriteResult.response JournalResponse.ok) h = cc
  activated_reply-status n csr (s, WriteResult.response (JournalResponse.entry_appended k)) h = cc
  activated_reply-status n csr (s, WriteResult.response (JournalResponse.validation_error e)) h = cc
  activated_reply-status n csr (s, WriteResult.response (JournalResponse.enrollment_result m t v))
        h =
      let (own, same) = certified-status n v _ s h in (own, (m, t, v, refl), same)

  -- Of a node that may enroll, the activation goes to Raft, and only what Raft applied is answered.
  activation-answered :
      (n : NodeId) (csr : List ℕ) (e : NodeEnrollment) (s : JournalState) {r : EnrollResponse}
      → lookup n s.enrollments ≡ some e
      → (e.state ≡ EnrollmentState.registered) ⊎ (e.state ≡ EnrollmentState.inactive)
      → (activated_reply svc call n csr
          (svc.raft.client_write call.later (activation svc call n) s)).1
        ≡ answer r
      → (r.node_id ≡ n)
        × (status n
              (activated_reply svc call n csr
                (svc.raft.client_write call.later (activation svc call n) s)).0
            ≡ some EnrollmentState.active)
  activation-answered n csr e s found fit h =
      let w = svc.raft.client_write call.later (activation svc call n) s in
      let (own, (m, t, v, answered), same) = activated_reply-status n csr w h in
      elim (svc.raft.client_write-IsWrite call.later (activation svc call n) s) [
        | inr (text, failed, o) ↦ cc (failed, answered)
        | inl applied ↦ (
          own,
          same
              ∙ ap (λ (x : Written). status n x.0) applied
              ∙ (unfold activation in activation-status lib call.later n _ _ s e found fit),
        )
      ]

-- What an enrollment that is granted shows of the journal before and after.
pub record IsAdmitted {lib : Library} (svc : EnrollmentService lib) (hw : Option ProtoHardware)
    (s t : JournalState) (node_id : NodeId) : Type 0 where
  pub hardware : ProtoHardware
  pub enrollment : NodeEnrollment
  pub presented : hw ≡ some hardware
  pub indexed : lookup (hw_canonical_key (proto_hw_to_domain hardware)) s.hw_index ≡ some node_id
  pub known : lookup node_id s.enrollments ≡ some enrollment
  pub admissible :
      (enrollment.state ≡ EnrollmentState.registered)
      ⊎ (enrollment.state ≡ EnrollmentState.inactive)
  pub activated : status node_id t ≡ some EnrollmentState.active

module _ {lib : Library} (svc : EnrollmentService lib) (call : CallTime) (csr : List ℕ)
    (s : JournalState) {r : EnrollResponse} where
  -- Only a registered or inactive node is given an answer.
  state_admitted :
      (n : NodeId) (e : NodeEnrollment) (st : EnrollmentState)
      → e.state ≡ st
      → lookup n s.enrollments ≡ some e
      → (enroll_node svc call n csr (some e) s).1 ≡ answer r
      → (r.node_id ≡ n)
        × ((e.state ≡ EnrollmentState.registered) ⊎ (e.state ≡ EnrollmentState.inactive))
        × (status n (enroll_node svc call n csr (some e) s).0 ≡ some EnrollmentState.active)
  unfolding enroll_node
  state_admitted n e EnrollmentState.revoked p found h = cc (rw (p, enroll_node) at h)
  state_admitted n e EnrollmentState.active p found h = cc (rw (p, enroll_node) at h)
  state_admitted n e EnrollmentState.registered p found h =
      let (own, now_active) =
        activation-answered svc call n csr e s found (inl p) (rw (p, enroll_node) at h) in
      (own, inl p, rw (p, enroll_node) now_active)
  state_admitted n e EnrollmentState.inactive p found h =
      let (own, now_active) =
        activation-answered svc call n csr e s found (inr p) (rw (p, enroll_node) at h) in
      (own, inr p, rw (p, enroll_node) now_active)

  node-IsAdmitted :
      (hw : ProtoHardware) (n : NodeId)
      → lookup (hw_canonical_key (proto_hw_to_domain hw)) s.hw_index ≡ some n
      → (o : Option NodeEnrollment) → lookup n s.enrollments ≡ o
      → (enroll_node svc call n csr o s).1 ≡ answer r
      → IsAdmitted svc (some hw) s (enroll_node svc call n csr o s).0 r.node_id
  unfolding enroll_node
  node-IsAdmitted hw n key none found h = cc
  node-IsAdmitted hw n key (some e) found h =
      let (own, fit, now_active) = state_admitted n e e.state refl found h in
      rw own (record {
        hardware = hw;
        enrollment = e;
        presented = refl;
        indexed = key;
        known = found;
        admissible = fit;
        activated = now_active;
      })

-- If `enroll` answers with a certificate, then the hardware that was presented is indexed to the node
-- of the answer, that node's record was registered or inactive, and it is active in the journal after
-- the call.
pub enroll-IsAdmitted :
    {lib : Library} (svc : EnrollmentService lib) (call : CallTime) (fl : Floats)
    (limiter : RateLimiter) (hw : Option ProtoHardware) (csr : List ℕ) (s : JournalState)
    (r : EnrollResponse)
    → (enroll svc call fl limiter hw csr s).1.1 ≡ answer r
    → IsAdmitted svc hw s (enroll svc call fl limiter hw csr s).1.0 r.node_id
unfolding enroll enroll_hardware
enroll-IsAdmitted svc call fl limiter none csr s r h =
    elim (Bool-cases (try_acquire fl call.now limiter).1) [
      | inl p ↦ cc (rw p at h)
      | inr p ↦ cc (rw p at h)
    ]
enroll-IsAdmitted svc call fl limiter (some hw) csr s r h =
    elim (Bool-cases (try_acquire fl call.now limiter).1) [
      | inr p ↦ cc (rw p at h)
      | inl p ↦ rw p (by_hardware (rw p at h))
    ]
  where
    by_hardware :
        (enroll_hardware svc call hw csr s).1 ≡ answer r
        → IsAdmitted svc (some hw) s (enroll_hardware svc call hw csr s).0 r.node_id
    by_hardware k =
        elim (Option-cases (lookup (hw_canonical_key (proto_hw_to_domain hw)) s.hw_index)) [
          | inl e ↦ cc (rw (e, enroll_hardware) at k)
          | inr (n, e) ↦
              rw (e, enroll_hardware)
                (node-IsAdmitted svc call csr s hw n e (lookup n s.enrollments) refl
                  (rw (e, enroll_hardware) at k))
        ]
