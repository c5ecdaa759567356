-- ===== src/Journal/ServiceExamples.antt =====
-- crates/pact-journal/src: the theorems on the services at concrete calls.
use Prim.Native.String.{◌++◌}
use pact.Base.{
  ◌≡◌, ◌↔◌, ◌⊎◌, refl, inl, String, String_eq, true, false, none, some, List, [], ◌∷◌, arith, In,
}
use pact.Base.Map.{Each, Each-nil, Each-insert, lookup, insert}
use pact.Base.Bindings.{IsDistinct}
use pact.Base.Text.{strip_prefix}
use pact.Types.{
  Identity, PrincipalType, ConfigEntry, EntryType, Scope, EnrollmentState, NodeEnrollment, NodeId,
  PendingApproval, ApprovalStatus,
}
use pact.Journal.State.{JournalState, Library, empty_state, hw_canonical_key}
use pact.Journal.Handlers.{activate_node, activate, activated}
use pact.Journal.Apply.{apply}
use pact.Journal.Raft.{Raft, WriteResult, IsAnswering}
use pact.Journal.Wire.{answer}
use pact.Journal.Convert.{proto_to_config_entry, config_entry_to_proto}
use pact.Journal.Convert.Roundtrip.{IsPortable, config_entry-roundtrip_iff}
use pact.Journal.Heartbeat.{check_timeouts, expire_approvals, system}
use pact.Journal.Heartbeat.Timeouts.{IsSilent, check_timeouts-enrollments}
use pact.Journal.Heartbeat.Expiry.{IsOverdue, expire_approvals-approvals}
use pact.Journal.RateLimiter.{Floats, RateLimiter, try_acquire, take_token, refilled}
use pact.Journal.Authority.{Made, sign_csr, issue}
use pact.Journal.Enrollment.{
  Header, ProtoHardware, Validation, CallTime, EnrollmentService, caller, extract_token,
  validate_token_str, proto_hw_to_domain,
}
use pact.Journal.Enrollment.Enroll.{
  EnrollResponse, enroll, enroll_hardware, enroll_node, activated_reply, activation, certified,
}
use pact.Journal.Enrollment.Entitlement.{Request, IsEntitled, after, after-IsEntitled}
use pact.Journal.Enrollment.Listing.{
  ListNodesRequest, NodeSummary, list_nodes, nodes_for, passes_filters, summary,
}
use pact.Journal.Enrollment.Scoping.{list_nodes-scoped_iff}
use pact.Journal.Enrollment.Admission.{IsAdmitted, enroll-IsAdmitted}

-- A parser that knows no time stamp, and one checksum for all overlays.
abbrev lib : Library
lib = record { parse_from_rfc3339 = λ s. none; compute_overlay_checksum = λ b. "" }

-- A Raft that commits every command at once.
abbrev prompt : Raft lib
prompt = record {
  client_write =
      λ now cmd s. ((apply lib now cmd s).0, WriteResult.response (apply lib now cmd s).1);
  client_write-IsWrite = λ now cmd s. inl refl;
}

prompt-IsAnswering : IsAnswering prompt
prompt-IsAnswering now cmd s = ((apply lib now cmd s).1, refl)

abbrev alice : Identity
alice = record { principal = "alice"; principal_type = PrincipalType.human; role = "pact-ops-ml" }

abbrev silent_node : NodeEnrollment
silent_node = record {
  node_id = "n1";
  domain_id = "d";
  state = EnrollmentState.active;
  hardware_identity = record { mac_address = "aa:01"; bmc_serial = none; extra = [] };
  vcluster_id = some "ml";
  cert_serial = none;
  cert_expires_at = none;
  last_seen = some 1000000000;
  enrolled_at = 0;
  enrolled_by = alice;
  active_sessions = 0;
}

abbrev silent_state : JournalState
silent_state = record empty_state { enrollments = ("n1", silent_node) ∷ [] }

own_id : Each (λ n e. e.node_id ≡ n) silent_state.enrollments
unfolding insert
own_id =
    Each-insert (λ n e. e.node_id ≡ n) "n1" silent_node [] (Each-nil (λ n e. e.node_id ≡ n)) refl

one_record : IsDistinct silent_state.enrollments
unfolding lookup
one_record = (refl, tt)

found_record : lookup "n1" silent_state.enrollments ≡ some silent_node
unfolding lookup
found_record = refl

check_timeouts-enrollments_example :
    (IsSilent 90000000000 60 silent_node
      × (lookup "n1" (check_timeouts prompt 60 90000000000 90000000001 silent_state).enrollments
          ≡ some (record silent_node { state = EnrollmentState.inactive })))
    ⊎ ((¬ IsSilent 90000000000 60 silent_node)
        × (lookup "n1" (check_timeouts prompt 60 90000000000 90000000001 silent_state).enrollments
            ≡ some silent_node))
check_timeouts-enrollments_example =
    check_timeouts-enrollments prompt prompt-IsAnswering 60 90000000000 90000000001 silent_state
      own_id one_record "n1" silent_node found_record

abbrev request : PendingApproval
request = record {
  approval_id = "a1";
  original_request = "commit on ml";
  action = "commit";
  scope = Scope.vcluster "ml";
  requester = alice;
  approver = none;
  status = ApprovalStatus.pending;
  created_at = 0;
  expires_at = 100;
}

abbrev waiting : JournalState
waiting = record empty_state { pending_approvals = ("a1", request) ∷ [] }

own_approval : Each (λ n a. a.approval_id ≡ n) waiting.pending_approvals
unfolding insert
own_approval =
    Each-insert (λ n a. a.approval_id ≡ n) "a1" request [] (Each-nil (λ n a. a.approval_id ≡ n))
      refl

one_approval : IsDistinct waiting.pending_approvals
unfolding lookup
one_approval = (refl, tt)

found_approval : lookup "a1" waiting.pending_approvals ≡ some request
unfolding lookup
found_approval = refl

expire_approvals-approvals_example :
    (IsOverdue 200 request
      × (lookup "a1" (expire_approvals prompt 200 201 waiting).pending_approvals
          ≡ some (record request { status = ApprovalStatus.expired; approver = some system })))
    ⊎ ((¬ IsOverdue 200 request)
        × (lookup "a1" (expire_approvals prompt 200 201 waiting).pending_approvals ≡ some request))
expire_approvals-approvals_example =
    expire_approvals-approvals prompt prompt-IsAnswering 200 201 waiting own_approval one_approval
      "a1" request found_approval

abbrev kernel_entry : ConfigEntry
kernel_entry = record {
  sequence = 0;
  timestamp = 5;
  entry_type = EntryType.commit;
  scope = Scope.node "n1";
  author = alice;
  parent = none;
  state_delta = none;
  policy_ref = some "p1";
  ttl_seconds = some 900;
  emergency_reason = none;
}

config_entry-roundtrip_iff_example :
    (proto_to_config_entry 7 (config_entry_to_proto kernel_entry)
      ≡ answer (record kernel_entry { timestamp = 7 }))
    ↔ IsPortable kernel_entry
config_entry-roundtrip_iff_example = config_entry-roundtrip_iff 7 kernel_entry (omega arith)

abbrev svc : EnrollmentService lib
svc = record {
  raft = prompt;
  validate = λ token. Validation.valid alice;
  rcgen = record {
    generate = λ name. Made.made "pem";
    sign_request = λ csr name. Made.made "pem";
    to_rfc3339 = λ t. "later";
  };
  ca = record { ca_pem = "ca"; cert_lifetime_seconds = 259200 };
  domain_id = "d";
}

abbrev call : CallTime
call = record {
  now = 5;
  later = 6;
  operation_id = "op";
  placeholder_serial = "s0";
  cert_serial = "s1";
}

abbrev header : Header
header = some (some "Bearer t")

after-IsEntitled_example :
    (after svc header call (Request.assign "n1" "ml") silent_state ≡ silent_state)
    ⊎ ((id : Identity) × (token : String) × (header ≡ some (some ("Bearer " ++ token)))
        × (svc.validate token ≡ Validation.valid id)
        × IsEntitled (Request.assign "n1" "ml") id.role)
after-IsEntitled_example = after-IsEntitled svc header call (Request.assign "n1" "ml") silent_state

abbrev all_nodes : ListNodesRequest
all_nodes = record { state_filter = ""; vcluster_filter = ""; unassigned_only = false }

alice_calls : caller svc header ≡ answer alice
unfolding caller extract_token validate_token_str strip_prefix
alice_calls = refl

abbrev rows : List NodeSummary
rows = nodes_for svc "pact-ops-ml" all_nodes silent_state

rows_listed : list_nodes svc header all_nodes silent_state ≡ answer rows
unfolding list_nodes caller extract_token validate_token_str strip_prefix
rows_listed = refl

list_nodes-scoped_iff_example : In (summary svc.rcgen.to_rfc3339 silent_node) rows ↔ (
    (n : NodeId) × (e : NodeEnrollment) × In (n, e) silent_state.enrollments
    × (e.vcluster_id ≡ some "ml")
    × (passes_filters all_nodes e ≡ true)
    × (summary svc.rcgen.to_rfc3339 silent_node ≡ summary svc.rcgen.to_rfc3339 e))
list_nodes-scoped_iff_example =
    list_nodes-scoped_iff svc header all_nodes silent_state alice "ml" rows
      (summary svc.rcgen.to_rfc3339 silent_node) alice_calls (inl refl) rows_listed

abbrev hardware : ProtoHardware
hardware = record { mac_address = "aa:01"; bmc_serial = ""; extra = [] }

abbrev registered_state : JournalState
registered_state = record empty_state {
  enrollments = ("n1", record silent_node { state = EnrollmentState.registered }) ∷ [];
  hw_index = ("mac:aa:01", "n1") ∷ [];
}

-- Arithmetic in which every bucket is full.
abbrev full : Floats
full = record {
  as_secs_f64 = λ n. n;
  from_u32 = λ n. n;
  mul_add = λ a b c. c;
  min = λ a b. a;
  max = λ a b. a;
  divide = λ a b. a;
  minus = λ a b. a;
  at_least = λ a b. true;
}

abbrev limiter : RateLimiter
limiter = record {
  bucket = record { tokens = 1; max_tokens = 1; refill_rate = 1; last_refill = 0 };
  per_ip = [];
  per_ip_max = 1;
}

abbrev granted : EnrollResponse
granted = record {
  node_id = "n1";
  domain_id = "d";
  vcluster_id = "ml";
  cert = record {
    cert_pem = "pem";
    ca_chain_pem = "ca";
    cert_serial = "s1";
    cert_expires_at = "later";
  };
}

is_granted : (enroll svc call full limiter (some hardware) [] registered_state).1.1 ≡ answer granted
unfolding enroll enroll_hardware enroll_node activated_reply activation certified try_acquire
    take_token refilled proto_hw_to_domain hw_canonical_key lookup apply activate_node activate
    activated sign_csr issue
is_granted = refl

enroll-IsAdmitted_example :
    IsAdmitted svc
      (some hardware)
      registered_state
      (enroll svc call full limiter (some hardware) [] registered_state).1.0
      "n1"
enroll-IsAdmitted_example =
    enroll-IsAdmitted svc call full limiter (some hardware) [] registered_state granted is_granted
