-- ===== src/Policy/Engine.antt =====
-- crates/pact-policy/src/rules/mod.rs: `DefaultPolicyEngine`, the policy cache and the approvals that
-- deferred requests wait for. Each operation takes the clock and the fresh identifier that it reads,
-- and returns the engine that it leaves. The external policy client is not part of these operations.
pub mod Approving
pub mod Vetting
pub mod Deferring
use Prim.Native.String.{◌++◌}
use pact.Base.{
  ℕ, ◌+◌, ◌*◌, String, String_eq, Bool, true, false, not, ◌&&◌, ◌||◌, Option, none, some, List, [],
  ◌∷◌, ◌==◌, if◌then◌else◌, ltb, ◌⊎◌, inl, inr, select, map,
}
use pact.Base.Map.{Map, lookup, insert, map_values}
use pact.Base.Text.{is_empty}
use pact.Types.{
  DateTime, seconds, Identity, Scope, VClusterId, VClusterPolicy, default_policy, PendingApproval,
  ApprovalStatus, is_pending, pending, approved, rejected, expired, StateDelta,
}
use pact.Policy.Rbac.{RbacDecision, allow, deny, defer, DenyReason, evaluate}

pub record PolicyRequest : Type 0 where
  pub identity : Identity
  pub scope : Scope
  pub action : String
  pub proposed_change : Option StateDelta
  pub command : Option String

pub data PolicyDecision : Type 0 where
  allowed : String → PolicyDecision
  denied : String → DenyReason → PolicyDecision
  require_approval : String → String → PolicyDecision

pub data PolicyError : Type 0 where
  policy_not_found approval_not_found approval_expired approval_already_resolved :
      String → PolicyError
  opa_error not_implemented : String → PolicyError
  self_approval : PolicyError
  -- the approver's role, and the vCluster that it has no access to
  insufficient_privileges : String → VClusterId → PolicyError

pub record DefaultPolicyEngine : Type 0 where
  pub policies : Map VClusterId VClusterPolicy
  pub pending_approvals : Map String PendingApproval
  -- an `i64`, here one that is not negative
  pub approval_timeout_seconds : ℕ

-- `DefaultPolicyEngine::new`.
abbrev pub new : ℕ → DefaultPolicyEngine
new timeout = record { policies = []; pending_approvals = []; approval_timeout_seconds = timeout }

unfoldable pub set_policy : VClusterPolicy → DefaultPolicyEngine → DefaultPolicyEngine
set_policy policy e = record e { policies = insert policy.vcluster_id policy e.policies }

abbrev pub scope_vcluster : Scope → VClusterId
scope_vcluster Scope.global = ""
scope_vcluster (Scope.vcluster vc) = vc
scope_vcluster (Scope.node vc) = vc

-- The cached policy of a vCluster, or the default one under its name.
unfoldable pub effective_policy : VClusterId → DefaultPolicyEngine → VClusterPolicy
effective_policy vc e = elim (lookup vc e.policies) [
  | some policy ↦ policy
  | none ↦ record default_policy { vcluster_id = vc }
]

abbrev pub policy_ref : VClusterId → VClusterPolicy → String
policy_ref vc policy = if is_empty policy.policy_id then "default:" ++ vc else policy.policy_id

abbrev pub new_approval : String → DateTime → PolicyRequest → ℕ → PendingApproval
new_approval uuid now request timeout = record {
  approval_id = uuid;
  original_request = request.action ++ " on " ++ scope_vcluster request.scope;
  action = request.action;
  scope = request.scope;
  requester = request.identity;
  approver = none;
  status = pending;
  created_at = now;
  expires_at = now + seconds timeout;
}

unfoldable pub create_approval :
    String → DateTime → PolicyRequest → DefaultPolicyEngine → DefaultPolicyEngine
create_approval uuid now request e = record e {
  pending_approvals =
      insert uuid (new_approval uuid now request e.approval_timeout_seconds) e.pending_approvals;
}

-- What the evaluation makes of the decision by role.
unfoldable pub answer :
    String
    → DateTime
    → PolicyRequest
    → VClusterPolicy
    → RbacDecision
    → DefaultPolicyEngine
    → DefaultPolicyEngine × PolicyDecision
answer uuid now request policy allow e =
    (e, allowed (policy_ref (scope_vcluster request.scope) policy))
answer uuid now request policy (deny reason) e =
    (e, denied (policy_ref (scope_vcluster request.scope) policy) reason)
answer uuid now request policy defer e =
    if policy.two_person_approval
    then (
      create_approval uuid now request e,
      require_approval (policy_ref (scope_vcluster request.scope) policy) uuid,
    )
    else (e, allowed (policy_ref (scope_vcluster request.scope) policy))

unfoldable pub evaluate_sync :
    String → DateTime → PolicyRequest → DefaultPolicyEngine → DefaultPolicyEngine × PolicyDecision
evaluate_sync uuid now request e =
    let policy = effective_policy (scope_vcluster request.scope) e in
    answer uuid now request policy (evaluate request.identity request.action request.scope policy) e

abbrev pub approver_has_access : Identity → VClusterId → Bool
approver_has_access approver vc =
    approver.role == "pact-platform-admin"
    || approver.role == ("pact-ops-" ++ vc)
    || approver.role == ("pact-regulated-" ++ vc)

abbrev pub resolve :
    String
    → ApprovalStatus
    → Option Identity
    → PendingApproval
    → DefaultPolicyEngine
    → DefaultPolicyEngine
resolve id status approver a e = record e {
  pending_approvals =
      insert id (record a { status = status; approver = approver }) e.pending_approvals;
}

-- `approve` on the approval that it finds.
unfoldable pub approve_found :
    DateTime
    → String
    → Identity
    → PendingApproval
    → DefaultPolicyEngine
    → DefaultPolicyEngine × (PolicyError ⊎ PolicyDecision)
approve_found now id approver a e =
    if ltb a.expires_at now
    then (resolve id expired a.approver a e, inl (approval_expired id))
    else if not (is_pending a.status)
    then (e, inl (approval_already_resolved id))
    else if a.requester.principal == approver.principal
    then (e, inl self_approval)
    else if not (approver_has_access approver (scope_vcluster a.scope))
    then (e, inl (insufficient_privileges approver.role (scope_vcluster a.scope)))
    else (resolve id approved (some approver) a e, inr (allowed ("approved:" ++ id)))

unfoldable pub approve :
    DateTime
    → String
    → Identity
    → DefaultPolicyEngine
    → DefaultPolicyEngine × (PolicyError ⊎ PolicyDecision)
approve now id approver e = elim (lookup id e.pending_approvals) [
  | none ↦ (e, inl (approval_not_found id))
  | some a ↦ approve_found now id approver a e
]

-- `reject` on the approval that it finds; no error is `Ok(())`.
unfoldable pub reject_found :
    String
    → Identity
    → PendingApproval
    → DefaultPolicyEngine
    → DefaultPolicyEngine × Option PolicyError
reject_found id rejector a e =
    if not (is_pending a.status)
    then (e, some (approval_already_resolved id))
    else (resolve id rejected (some rejector) a e, none)

unfoldable pub reject :
    String → Identity → DefaultPolicyEngine → DefaultPolicyEngine × Option PolicyError
reject id rejector e = elim (lookup id e.pending_approvals) [
  | none ↦ (e, some (approval_not_found id))
  | some a ↦ reject_found id rejector a e
]

abbrev pub is_overdue : DateTime → PendingApproval → Bool
is_overdue now a = is_pending a.status && ltb a.expires_at now

abbrev pub expire : DateTime → PendingApproval → PendingApproval
expire now a = if is_overdue now a then record a { status = expired } else a

unfoldable pub expire_approvals : DateTime → DefaultPolicyEngine → DefaultPolicyEngine × List String
expire_approvals now e = (
  record e { pending_approvals = map_values (expire now) e.pending_approvals },
  map (λ b. b.0) (select (λ b. is_overdue now b.1) e.pending_approvals),
)

-- `pending_approvals()`, and `retain` of `cleanup_resolved` by the same test.
abbrev pub still_pending : Map String PendingApproval → Map String PendingApproval
still_pending m = select (λ b. is_pending b.1.status) m

unfoldable pub cleanup_resolved : DefaultPolicyEngine → DefaultPolicyEngine
cleanup_resolved e = record e { pending_approvals = still_pending e.pending_approvals }
