-- ===== src/Policy/Examples.antt =====
-- crates/pact-policy: the theorems at concrete requests.
use pact.Base.{In, ◌≡◌, ◌↔◌, refl, none, some, List, [], ◌∷◌, inl, String, String_eq, true}
use pact.Base.Map.{lookup, insert, map_values}
use pact.Base.Text.{strip_prefix, starts_with}
use pact.Types.{
  Identity, PrincipalType, Scope, VClusterPolicy, default_policy, PendingApproval, pending,
  approved,
}
use pact.Policy.Rbac.{
  allow, deny, defer, role_scoped, evaluate, extract_vcluster_from_role, by_role, in_vcluster, ops,
  regulated,
}
use pact.Policy.Roles.{Names}
use pact.Policy.Scoping.{reading, operating, viewer_allowed_iff, ops_allowed_iff}
use pact.Policy.Emergencies.{MayHandle, emergency_needs_grant}
use pact.Policy.Engine.{
  DefaultPolicyEngine, PolicyRequest, new, evaluate_sync, approve, expire_approvals, answer,
  effective_policy, set_policy, create_approval, approve_found,
}
use pact.Policy.Engine.Deferring.{IsHeld, IsWaiting, in_force, evaluate_sync_holds_iff}
use pact.Policy.Engine.Vetting.{
  Operation, to_set_policy, to_evaluate, to_approve, to_expire, perform, perform_all,
}

abbrev person : String → String → Identity
person name role = record { principal = name; principal_type = PrincipalType.human; role = role }

abbrev two_person_policy : VClusterPolicy
two_person_policy = record default_policy {
  vcluster_id = "ml";
  policy_id = "p";
  two_person_approval = true;
}

abbrev carol : Identity
carol = person "carol" "pact-regulated-ml"

abbrev dave : Identity
dave = person "dave" "pact-ops-ml"

abbrev erin : Identity
erin = person "erin" "pact-viewer-ml"

viewer_allowed_iff_example :
    (Names (Scope.vcluster "ml") "ml" × In "diff" reading)
    ↔ (evaluate erin "diff" (Scope.vcluster "ml") default_policy ≡ allow)
unfolding strip_prefix
viewer_allowed_iff_example =
    viewer_allowed_iff erin "diff" (Scope.vcluster "ml") default_policy refl

-- The operator of a vCluster is refused at its nodes, and allowed at a node of that name anywhere.
node_test :
    (evaluate dave "exec" (Scope.node "node-001") default_policy
      ≡ deny (role_scoped "pact-ops-ml" "ml" "node-001"))
    × (evaluate dave "exec" (Scope.node "ml") default_policy ≡ allow)
unfolding extract_vcluster_from_role strip_prefix evaluate in_vcluster by_role ops starts_with
node_test = (refl, refl)

ops_allowed_iff_example :
    (Names (Scope.vcluster "hpc") "ml" × In "exec" operating)
    ↔ (evaluate dave "exec" (Scope.vcluster "hpc") default_policy ≡ allow)
unfolding strip_prefix
ops_allowed_iff_example = ops_allowed_iff dave "exec" (Scope.vcluster "hpc") default_policy refl

abbrev commit_request : PolicyRequest
commit_request = record {
  identity = carol;
  scope = Scope.vcluster "ml";
  action = "commit";
  proposed_change = none;
  command = none;
}

abbrev operations : List Operation
operations =
    to_set_policy two_person_policy
    ∷ to_evaluate "u1" 0 commit_request
    ∷ to_approve 5 "u1" dave
    ∷ to_expire 9
    ∷ []

emergency_needs_grant_example :
    MayHandle dave "emergency_start" (Scope.vcluster "ml") default_policy
unfolding extract_vcluster_from_role strip_prefix evaluate in_vcluster by_role ops starts_with
emergency_needs_grant_example =
    emergency_needs_grant dave "emergency_start" (Scope.vcluster "ml") default_policy (inl refl)
      refl

-- The request waits, and is approved by the operator.
approval_test :
    ((a : PendingApproval) × (lookup "u1" (perform_all operations (new 60)).pending_approvals
        ≡ some a)
      × (a.status ≡ approved))
unfolding perform_all lookup perform expire_approvals map_values approve evaluate_sync answer
    evaluate in_vcluster extract_vcluster_from_role strip_prefix by_role starts_with regulated
    effective_policy set_policy insert create_approval approve_found
approval_test = (_, refl, refl)

abbrev waiting : PendingApproval
waiting = record {
  approval_id = "u1";
  original_request = "commit on ml";
  action = "commit";
  scope = Scope.vcluster "ml";
  requester = carol;
  approver = none;
  status = pending;
  created_at = 0;
  expires_at = 60;
}

abbrev engine : DefaultPolicyEngine
engine = record {
  policies = [];
  pending_approvals = ("u1", waiting) ∷ [];
  approval_timeout_seconds = 60;
}

abbrev ready : DefaultPolicyEngine
ready = record {
  policies = ("ml", two_person_policy) ∷ [];
  pending_approvals = [];
  approval_timeout_seconds = 60;
}

evaluate_sync_holds_iff_example :
    (evaluate carol "commit" (Scope.vcluster "ml") (in_force "u1" 0 commit_request ready) ≡ defer)
    ↔ (IsHeld "u1" 0 commit_request ready
        × ((a : PendingApproval) × (lookup "u1"
                (evaluate_sync "u1" 0 commit_request ready).0.pending_approvals
              ≡ some a)
            × IsWaiting "u1" 0 commit_request 60 a))
evaluate_sync_holds_iff_example = evaluate_sync_holds_iff "u1" 0 commit_request ready
