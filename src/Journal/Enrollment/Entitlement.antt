-- ===== src/Journal/Enrollment/Entitlement.antt =====
-- crates/pact-journal/src/enrollment_service.rs: who may change the journal by a call.
use Prim.Native.String.{◌++◌}
use pact.Base.{
  ◌≡◌, refl, ◌⊎◌, inl, inr, ℕ, String, String_eq, Bool, true, ◌||◌, List, ◌==◌, ==_true, Option,
  none, some, Bool-cases, Option-cases,
}
use pact.Base.Text.{strip_prefix, strip_prefix-some}
use pact.Types.{NodeId, VClusterId, Identity}
use pact.Journal.State.{JournalState, Library}
use pact.Journal.Wire.{Status, Reply, answer, error}
use pact.Journal.Enrollment.{
  Header, ProtoHardware, CallTime, EnrollmentService, admin_role, caller, caller_with, admin,
  register_node, Validation, extract_token, validate_token_str,
}
use pact.Journal.Enrollment.Calls.{
  batch_register_nodes, decommission_node, assign_node, unassign_node, move_node, renew_cert,
}

-- The calls that ask for a token.
pub data Request : Type 0 where
  register : NodeId → Option ProtoHardware → Request
  register_batch : List (NodeId × Option ProtoHardware) → Request
  decommission : NodeId → Bool → Request
  assign : NodeId → VClusterId → Request
  unassign : NodeId → Request
  move_to : NodeId → VClusterId → Request
  renew : String → List ℕ → Request

-- The journal after a call.
unfoldable pub after :
    {lib : Library}
    → EnrollmentService lib
    → Header
    → CallTime
    → Request
    → JournalState
    → JournalState
after svc header call (Request.register n hw) s = (register_node svc header call n hw s).0
after svc header call (Request.register_batch nodes) s =
    (batch_register_nodes svc header call nodes s).0
after svc header call (Request.decommission n force) s =
    (decommission_node svc header call n force s).0
after svc header call (Request.assign n v) s = (assign_node svc header call n v s).0
after svc header call (Request.unassign n) s = (unassign_node svc header call n s).0
after svc header call (Request.move_to n v) s = (move_node svc header call n v s).0
after svc header call (Request.renew serial csr) s = (renew_cert svc header call serial csr s).0

-- The role that a call asks of its caller.
abbrev pub IsEntitled : Request → String → Type 0
IsEntitled (Request.register n hw) role = role ≡ admin_role
IsEntitled (Request.register_batch nodes) role = role ≡ admin_role
IsEntitled (Request.decommission n force) role = role ≡ admin_role
IsEntitled (Request.assign n v) role = (role ≡ admin_role) ⊎ (role ≡ "pact-ops-" ++ v)
IsEntitled (Request.unassign n) role = Unit
IsEntitled (Request.move_to n v) role = Unit
IsEntitled (Request.renew serial csr) role = Unit

Reply-cases :
    {A : Type 0} (r : Reply A) → ((e : Status) × (r ≡ error e)) ⊎ ((a : A) × (r ≡ answer a))
Reply-cases (answer a) = inr (a, refl)
Reply-cases (error e) = inl (e, refl)

-- A caller who passes a test of roles is authenticated and has such a role.
caller_with-answer :
    {lib : Library} (svc : EnrollmentService lib) (may : String → Bool) (refusal : String)
    (header : Header) {id : Identity}
    → caller_with svc may refusal header ≡ answer id
    → (caller svc header ≡ answer id) × (may id.role ≡ true)
unfolding caller_with
caller_with-answer svc may refusal header h = elim (Reply-cases (caller svc header)) [
  | inl (e, p) ↦ cc (rw (p, caller_with) at h)
  | inr (id, p) ↦ elim (Bool-cases (may id.role)) [
    | inl q ↦ let same = rw q at (rw (p, caller_with) at h) in (cc (same, p), cc (same, q))
    | inr q ↦ cc (rw q at (rw (p, caller_with) at h))
  ]
]

extract_token-answer :
    (header : Header) {token : String}
    → extract_token header ≡ answer token
    → header ≡ some (some ("Bearer " ++ token))
unfolding extract_token
extract_token-answer none h = cc
extract_token-answer (some none) h = cc
extract_token-answer (some (some value)) h = elim (Option-cases (strip_prefix "Bearer " value)) [
  | inl e ↦ cc (rw (e, extract_token) at h)
  | inr (t, e) ↦ cc (strip_prefix-some "Bearer " value t e, rw (e, extract_token) at h)
]

-- A known caller's token is the header's, and the validator knows it.
caller-valid :
    {lib : Library} (svc : EnrollmentService lib) (header : Header) {id : Identity}
    → caller svc header ≡ answer id
    → (token : String) × (header ≡ some (some ("Bearer " ++ token)))
      × (svc.validate token ≡ Validation.valid id)
unfolding caller validate_token_str
caller-valid svc header {id} h = elim (Reply-cases (extract_token header)) [
  | inl (e, p) ↦ cc (rw (p, caller) at h)
  | inr (token, p) ↦
      (token, extract_token-answer header p, known (svc.validate token) refl (rw (p, caller) at h))
]
  where
    known :
        {token : String} (v : Validation)
        → svc.validate token ≡ v
        → validate_token_str svc token ≡ answer id
        → svc.validate token ≡ Validation.valid id
    known (Validation.valid i) e k = cc (rw (e, validate_token_str) at k, e)
    known (Validation.invalid t) e k = cc (rw (e, validate_token_str) at k)

module _ {lib : Library} (svc : EnrollmentService lib) (header : Header) (call : CallTime) where
  -- The caller is known, with a role that fits.
  Known : Request → Type 0
  Known req = (id : Identity) × (caller svc header ≡ answer id) × IsEntitled req id.role

  admin_known :
      {id : Identity}
      → admin svc header ≡ answer id
      → (caller svc header ≡ answer id) × (id.role ≡ admin_role)
  admin_known {id} h =
      let (known, role) = caller_with-answer svc _ _ header h in
      (known, ==_true id.role admin_role role)

  -- Each call is guarded: it leaves the journal alone unless the caller is known.
  after-guarded : (req : Request) (s : JournalState) → (after svc header call req s ≡ s) ⊎ Known req
  unfolding after Known register_node batch_register_nodes decommission_node assign_node
      unassign_node move_node renew_cert
  after-guarded (Request.register n hw) s = elim (Reply-cases (admin svc header)) [
    | inl (e, p) ↦ inl (rw (p, after, register_node) refl)
    | inr (id, p) ↦ let (known, role) = admin_known p in inr (id, known, role)
  ]
  after-guarded (Request.register_batch nodes) s = elim (Reply-cases (admin svc header)) [
    | inl (e, p) ↦ inl (rw (p, after, batch_register_nodes) refl)
    | inr (id, p) ↦ let (known, role) = admin_known p in inr (id, known, role)
  ]
  after-guarded (Request.decommission n force) s = elim (Reply-cases (admin svc header)) [
    | inl (e, p) ↦ inl (rw (p, after, decommission_node) refl)
    | inr (id, p) ↦ let (known, role) = admin_known p in inr (id, known, role)
  ]
  after-guarded (Request.assign n v) s =
      elim (Reply-cases (
        caller_with svc (λ role. role == admin_role || role == "pact-ops-" ++ v)
          "requires platform-admin or ops role" header)) [
            | inl (e, p) ↦ inl (rw (p, after, assign_node) refl)
            | inr (id, p) ↦
                let (known, role) = caller_with-answer svc _ _ header p in
                inr (id, known, either_role id.role v role)
          ]
    where
      either_role :
          (role : String) (v : VClusterId)
          → (role == admin_role || role == "pact-ops-" ++ v) ≡ true
          → (role ≡ admin_role) ⊎ (role ≡ "pact-ops-" ++ v)
      either_role role v h = elim (Bool-cases (role == admin_role)) [
        | inl q ↦ inl (==_true role admin_role q)
        | inr q ↦ inr (==_true role ("pact-ops-" ++ v) (rw q at h))
      ]
  after-guarded (Request.unassign n) s = elim (Reply-cases (caller svc header)) [
    | inl (e, p) ↦ inl (rw (p, after, unassign_node) refl)
    | inr (id, p) ↦ inr (id, p, tt)
  ]
  after-guarded (Request.move_to n v) s = elim (Reply-cases (caller svc header)) [
    | inl (e, p) ↦ inl (rw (p, after, move_node) refl)
    | inr (id, p) ↦ inr (id, p, tt)
  ]
  after-guarded (Request.renew serial csr) s = elim (Reply-cases (caller svc header)) [
    | inl (e, p) ↦ inl (rw (p, after, renew_cert) refl)
    | inr (id, p) ↦ inr (id, p, tt)
  ]

-- A call other than an enrollment leaves the journal as it is, unless the validator knows the token in
-- the header for a caller whose role is: the platform administrator's, to register nodes, alone or
-- in a batch, or to decommission one; that or the operator's role of the vCluster, to assign a node to
-- it; any, to unassign or move a node or to renew a certificate.
pub after-IsEntitled :
    {lib : Library} (svc : EnrollmentService lib) (header : Header) (call : CallTime)
    (req : Request) (s : JournalState)
    → (after svc header call req s ≡ s)
      ⊎ ((id : Identity) × (token : String) × (header ≡ some (some ("Bearer " ++ token)))
          × (svc.validate token ≡ Validation.valid id)
          × IsEntitled req id.role)
unfolding Known
after-IsEntitled svc header call req s = elim (after-guarded svc header call req s) [
  | inl same ↦ inl same
  | inr (id, known, entitled) ↦
      let (token, h, v) = caller-valid svc header known in inr (id, token, h, v, entitled)
]
