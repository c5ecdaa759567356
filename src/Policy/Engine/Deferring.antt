-- ===== src/Policy/Engine/Deferring.antt =====
-- crates/pact-policy/src/rules/mod.rs, `evaluate_sync`: which requests wait for an approval.
use pact.Base.{
  String, String_eq, Bool, true, false, not, ◌&&◌, ◌||◌, List, [], ◌∷◌, none, some, inl, inr, ◌≡◌,
  ◌≢◌, ℕ, ◌+◌, ◌*◌, ◌↔◌, refl, ap, ◌∙◌, ◌==◌, Bool-cases, contains, any, if◌then◌else◌,
}
use pact.Base.Map.{lookup, lookup-insert_self}
use pact.Base.Text.{starts_with}
use pact.Types.{
  DateTime, Identity, Scope, VClusterId, VClusterPolicy, RoleBinding, PendingApproval, pending,
}
use pact.Policy.Rbac.{
  RbacDecision, DenyReason, allow, deny, defer, read_actions, write_actions, is_emergency, evaluate,
  in_vcluster, by_role, binds, role_bindings, extract_vcluster_from_role, wrong_vcluster, viewer,
  regulated, ops, service_agent, service_ai,
}
use pact.Policy.Engine.{
  DefaultPolicyEngine, PolicyRequest, require_approval, evaluate_sync, answer, create_approval,
  effective_policy, scope_vcluster, policy_ref, new_approval,
}

abbrev IsFinal : RbacDecision → Type 0
IsFinal d = d ≢ defer

if-IsFinal : (b : Bool) (x y : RbacDecision) → IsFinal x → IsFinal y → IsFinal (if b then x else y)
if-IsFinal true x y p q = p
if-IsFinal false x y p q = q

allow-IsFinal : IsFinal allow
allow-IsFinal p = cc

deny-IsFinal : (r : DenyReason) → IsFinal (deny r)
deny-IsFinal r p = cc

module _ (identity : Identity) (action : String) (policy : VClusterPolicy) where
  role_bindings-IsFinal :
      (bindings : List RoleBinding) → IsFinal (role_bindings identity action bindings)
  unfolding role_bindings
  role_bindings-IsFinal [] = deny-IsFinal _
  role_bindings-IsFinal (b ∷ bindings) =
      if-IsFinal (binds identity action b) _ _
        (if-IsFinal (is_emergency action && not (any (λ a. a == action) b.allowed_actions)) _ _
          (deny-IsFinal _) allow-IsFinal)
        (role_bindings-IsFinal bindings)

  regulated-IsFinal : policy.two_person_approval ≡ false → IsFinal (regulated action policy)
  unfolding regulated
  regulated-IsFinal alone = rw alone (
      if-IsFinal (contains read_actions action) _ _ allow-IsFinal (
        if-IsFinal (contains write_actions action || action == "approve") _ _ allow-IsFinal
          (deny-IsFinal _)))

  viewer-IsFinal : IsFinal (viewer action)
  unfolding viewer
  viewer-IsFinal = if-IsFinal (contains read_actions action) _ _ allow-IsFinal (deny-IsFinal _)

  ops-IsFinal : IsFinal (ops action)
  unfolding ops
  ops-IsFinal =
      if-IsFinal (contains read_actions action || contains write_actions action) _ _ allow-IsFinal (
        if-IsFinal (is_emergency action) _ _ allow-IsFinal
          (if-IsFinal (action == "approve") _ _ allow-IsFinal (deny-IsFinal _)))

  agent-IsFinal : IsFinal (service_agent action)
  unfolding service_agent
  agent-IsFinal =
      if-IsFinal (action == "status" || action == "log") _ _ allow-IsFinal (deny-IsFinal _)

  ai-IsFinal : (vc : VClusterId) → IsFinal (service_ai action vc policy)
  unfolding service_ai
  ai-IsFinal vc = if-IsFinal (contains read_actions action) _ _ allow-IsFinal (
      if-IsFinal (action == "exec" && policy.ai_exec_allowed) _ _ allow-IsFinal
        (if-IsFinal (action == "exec") _ _ (deny-IsFinal _) (deny-IsFinal _)))

  by_role-IsFinal :
      (vc : VClusterId)
      → policy.two_person_approval ≡ false
      → IsFinal (by_role identity action vc policy)
  unfolding by_role
  by_role-IsFinal vc alone = if-IsFinal (action == "policy_update") _ _ (deny-IsFinal _) (
      if-IsFinal (starts_with "pact-viewer-" identity.role) _ _ viewer-IsFinal (
        if-IsFinal (starts_with "pact-regulated-" identity.role) _ _ (regulated-IsFinal alone) (
          if-IsFinal (starts_with "pact-ops-" identity.role) _ _ ops-IsFinal (
            if-IsFinal (identity.role == "pact-service-agent") _ _ agent-IsFinal (
              if-IsFinal (identity.role == "pact-service-ai") _ _ (ai-IsFinal vc)
                (role_bindings-IsFinal policy.role_bindings))))))

  in_vcluster-IsFinal :
      (vc : VClusterId)
      → policy.two_person_approval ≡ false
      → IsFinal (in_vcluster identity action vc policy)
  unfolding in_vcluster
  in_vcluster-IsFinal vc alone =
      if-IsFinal (wrong_vcluster (extract_vcluster_from_role identity.role) vc) _ _ (deny-IsFinal _)
        (by_role-IsFinal vc alone)

  evaluate-IsFinal :
      (scope : Scope)
      → policy.two_person_approval ≡ false
      → IsFinal (evaluate identity action scope policy)
  unfolding evaluate
  evaluate-IsFinal Scope.global alone =
      if-IsFinal (identity.role == "pact-platform-admin") _ _ allow-IsFinal (
        if-IsFinal (identity.role == "pact-service-ai" && is_emergency action) _ _ (deny-IsFinal _)
          (deny-IsFinal _))
  evaluate-IsFinal (Scope.vcluster vc) alone =
      if-IsFinal (identity.role == "pact-platform-admin") _ _ allow-IsFinal (
        if-IsFinal (identity.role == "pact-service-ai" && is_emergency action) _ _ (deny-IsFinal _)
          (in_vcluster-IsFinal vc alone))
  evaluate-IsFinal (Scope.node vc) alone =
      if-IsFinal (identity.role == "pact-platform-admin") _ _ allow-IsFinal (
        if-IsFinal (identity.role == "pact-service-ai" && is_emergency action) _ _ (deny-IsFinal _)
          (in_vcluster-IsFinal vc alone))

two_person_of_defer :
    (identity : Identity) (action : String) (scope : Scope) (policy : VClusterPolicy)
    → evaluate identity action scope policy ≡ defer
    → policy.two_person_approval ≡ true
two_person_of_defer identity action scope policy e = elim (Bool-cases policy.two_person_approval) [
  | inl p ↦ p
  | inr p ↦ absurd (evaluate-IsFinal identity action policy scope p e)
]

-- An approval that was made for the request at that time, and waits.
pub record IsWaiting (uuid : String) (now : DateTime) (request : PolicyRequest) (timeout : ℕ)
    (a : PendingApproval) : Type 0 where
  pub approval_id : a.approval_id ≡ uuid
  pub status : a.status ≡ pending
  pub approver : a.approver ≡ none
  pub requester : a.requester ≡ request.identity
  pub action : a.action ≡ request.action
  pub scope : a.scope ≡ request.scope
  pub created_at : a.created_at ≡ now
  pub expires_at : a.expires_at ≡ now + timeout * 1000000000

new_approval-IsWaiting :
    (uuid : String) (now : DateTime) (request : PolicyRequest) (timeout : ℕ)
    → IsWaiting uuid now request timeout (new_approval uuid now request timeout)
new_approval-IsWaiting uuid now request timeout = record {
  approval_id = refl;
  status = refl;
  approver = refl;
  requester = refl;
  action = refl;
  scope = refl;
  created_at = refl;
  expires_at = refl;
}

module _ (uuid : String) (now : DateTime) (request : PolicyRequest) (e : DefaultPolicyEngine) where
  -- The policy that a request is judged by.
  abbrev pub in_force : VClusterPolicy
  in_force = effective_policy (scope_vcluster request.scope) e

  -- The request is answered by a call for approval under the fresh identifier.
  abbrev pub IsHeld : Type 0
  IsHeld =
      (evaluate_sync uuid now request e).1
      ≡ require_approval (policy_ref (scope_vcluster request.scope) in_force) uuid

  answer-holds :
      (d : RbacDecision)
      → (answer uuid now request in_force d e).1
        ≡ require_approval (policy_ref (scope_vcluster request.scope) in_force) uuid
      → d ≡ defer
  unfolding answer
  answer-holds allow h = cc
  answer-holds (deny r) h = cc
  answer-holds defer h = refl

  deferred :
      evaluate request.identity request.action request.scope in_force ≡ defer
      → evaluate_sync uuid now request e ≡ (
        create_approval uuid now request e,
        require_approval (policy_ref (scope_vcluster request.scope) in_force) uuid,
      )
  unfolding evaluate_sync
  deferred d =
      let two = two_person_of_defer request.identity request.action request.scope in_force d in
      ap (λ x. answer uuid now request in_force x e) d ∙ (unfold answer in rw two refl)

  -- The evaluation by role defers a request if and only if the request is held for approval and an
  -- approval of it waits under the fresh identifier: pending, without an approver, made now for the one
  -- who asks, with its action and scope, and to expire as many seconds from now as the engine's timeout
  -- says.
  pub evaluate_sync_holds_iff :
      (evaluate request.identity request.action request.scope in_force ≡ defer) ↔ (
        IsHeld
        × ((a : PendingApproval) × (lookup uuid
                (evaluate_sync uuid now request e).0.pending_approvals
              ≡ some a)
            × IsWaiting uuid now request e.approval_timeout_seconds a))
  unfolding evaluate_sync create_approval
  evaluate_sync_holds_iff = (
    λ d. (
      ap (λ o. o.1) (deferred d),
      (
        new_approval uuid now request e.approval_timeout_seconds,
        ap (λ o. lookup uuid o.0.pending_approvals) (deferred d)
            ∙ lookup-insert_self uuid (new_approval uuid now request e.approval_timeout_seconds)
                e.pending_approvals,
        new_approval-IsWaiting uuid now request e.approval_timeout_seconds,
      ),
    ),
    λ h. answer-holds _ h.0,
  )
