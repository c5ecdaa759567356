-- ===== src/Policy/Rbac.antt =====
-- crates/pact-policy/src/rbac/mod.rs: role-based access control.
use pact.Base.{
  String, String_eq, Bool, false, not, ◌&&◌, ◌||◌, Option, none, some, List, [], ◌∷◌, ◌==◌,
  if◌then◌else◌, any, contains,
}
use pact.Base.Text.{strip_prefix, starts_with}
use pact.Types.{Identity, Scope, VClusterId, VClusterPolicy, RoleBinding}

-- The `reason` of a denial: one constructor for each message, with the values that it shows.
pub data DenyReason : Type 0 where
  ai_emergency global_scope policy_update_scope wildcard_emergency : DenyReason
  -- the role, the vCluster that it is scoped to, and the one asked for
  role_scoped : String → String → VClusterId → DenyReason
  viewer_action regulated_action ops_action agent_action ai_action : String → DenyReason
  ai_exec_unauthorized : VClusterId → DenyReason
  unknown_role : String → DenyReason

pub data RbacDecision : Type 0 where
  allow : RbacDecision
  deny : DenyReason → RbacDecision
  defer : RbacDecision

abbrev pub read_actions : List String
read_actions = "status" ∷ "diff" ∷ "log" ∷ []

abbrev pub write_actions : List String
write_actions =
    "commit" ∷ "rollback" ∷ "exec" ∷ "shell" ∷ "service_start" ∷ "service_stop" ∷ "service_restart"
    ∷ []

abbrev pub is_emergency : String → Bool
is_emergency action = action == "emergency_start" || action == "emergency_end"

unfoldable pub extract_vcluster_from_role : String → Option VClusterId
extract_vcluster_from_role role = elim (strip_prefix "pact-ops-" role) [
  | some vc ↦ some vc
  | none ↦ elim (strip_prefix "pact-viewer-" role) [
    | some vc ↦ some vc
    | none ↦ strip_prefix "pact-regulated-" role
  ]
]

unfoldable pub viewer : String → RbacDecision
viewer action = if contains read_actions action then allow else deny (viewer_action action)

unfoldable pub regulated : String → VClusterPolicy → RbacDecision
regulated action policy =
    if contains read_actions action
    then allow
    else if policy.two_person_approval && contains write_actions action
    then defer
    else if contains write_actions action || action == "approve"
    then allow
    else deny (regulated_action action)

unfoldable pub ops : String → RbacDecision
ops action =
    if contains read_actions action || contains write_actions action
    then allow
    else if is_emergency action
    then allow
    else if action == "approve"
    then allow
    else deny (ops_action action)

unfoldable pub service_agent : String → RbacDecision
service_agent action =
    if action == "status" || action == "log" then allow else deny (agent_action action)

unfoldable pub service_ai : String → VClusterId → VClusterPolicy → RbacDecision
service_ai action vcluster_id policy =
    if contains read_actions action
    then allow
    else if action == "exec" && policy.ai_exec_allowed
    then allow
    else if action == "exec"
    then deny (ai_exec_unauthorized vcluster_id)
    else deny (ai_action action)

abbrev pub binds : Identity → String → RoleBinding → Bool
binds identity action binding =
    binding.role == identity.role
    && contains binding.principals identity.principal
    && any (λ a. a == action || a == "*") binding.allowed_actions

-- The loop over `policy.role_bindings`: the first binding that applies decides.
unfoldable pub role_bindings : Identity → String → List RoleBinding → RbacDecision
role_bindings identity action [] = deny (unknown_role identity.role)
role_bindings identity action (binding ∷ rest) =
    let later = role_bindings identity action rest in
    if binds identity action binding
    then if is_emergency action && not (any (λ a. a == action) binding.allowed_actions)
      then deny wildcard_emergency
      else allow
    else later

abbrev pub wrong_vcluster : Option VClusterId → VClusterId → Bool
wrong_vcluster none vcluster_id = false
wrong_vcluster (some role_vc) vcluster_id = not (role_vc == vcluster_id)

abbrev pub or_empty : Option VClusterId → VClusterId
or_empty none = ""
or_empty (some vc) = vc

-- What follows the test on the role's vCluster: the kinds of role in turn.
unfoldable pub by_role : Identity → String → VClusterId → VClusterPolicy → RbacDecision
by_role identity action vcluster_id policy =
    if action == "policy_update"
    then deny policy_update_scope
    else if starts_with "pact-viewer-" identity.role
    then viewer action
    else if starts_with "pact-regulated-" identity.role
    then regulated action policy
    else if starts_with "pact-ops-" identity.role
    then ops action
    else if identity.role == "pact-service-agent"
    then service_agent action
    else if identity.role == "pact-service-ai"
    then service_ai action vcluster_id policy
    else role_bindings identity action policy.role_bindings

unfoldable pub in_vcluster : Identity → String → VClusterId → VClusterPolicy → RbacDecision
in_vcluster identity action vcluster_id policy =
    let role_vc = extract_vcluster_from_role identity.role in
    if wrong_vcluster role_vc vcluster_id
    then deny (role_scoped identity.role (or_empty role_vc) vcluster_id)
    else by_role identity action vcluster_id policy

unfoldable pub evaluate : Identity → String → Scope → VClusterPolicy → RbacDecision
evaluate identity action scope policy =
    if identity.role == "pact-platform-admin"
    then allow
    else if identity.role == "pact-service-ai" && is_emergency action
    then deny ai_emergency
    else elim scope [
      | Scope.global ↦ deny global_scope
      | Scope.vcluster vc ↦ in_vcluster identity action vc policy
      | Scope.node vc ↦ in_vcluster identity action vc policy
    ]
