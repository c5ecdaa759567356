-- ===== src/Policy/Engine/Vetting.antt =====
-- crates/pact-policy/src/rules/mod.rs: the engine's operations in any order.
use pact.Base.{String, true, some, List, [], ◌∷◌, ◌≡◌, ◌≢◌, In, String_eq}
use pact.Types.{DateTime, Identity, PendingApproval, approved, VClusterPolicy}
use pact.Policy.Engine.{
  DefaultPolicyEngine, PolicyRequest, set_policy, evaluate_sync, approve, reject, expire_approvals,
  cleanup_resolved, approver_has_access, scope_vcluster,
}

-- An approved request was approved by another person, with access to its scope.
abbrev pub IsVetted : PendingApproval → Type 0
IsVetted a =
    a.status ≡ approved
    → (who : Identity) × (a.approver ≡ some who)
      × (a.requester.principal ≢ who.principal)
      × (approver_has_access who (scope_vcluster a.scope) ≡ true)

abbrev pub AreVetted : DefaultPolicyEngine → Type 0
AreVetted e = (id : String) (a : PendingApproval) → In (id, a) e.pending_approvals → IsVetted a

-- The calls that change an engine, with the clock and the identifier that each reads.
pub data Operation : Type 0 where
  to_set_policy : VClusterPolicy → Operation
  to_evaluate : String → DateTime → PolicyRequest → Operation
  to_approve : DateTime → String → Identity → Operation
  to_reject : String → Identity → Operation
  to_expire : DateTime → Operation
  to_cleanup : Operation

unfoldable pub perform : Operation → DefaultPolicyEngine → DefaultPolicyEngine
perform (to_set_policy policy) e = set_policy policy e
perform (to_evaluate uuid now request) e = (evaluate_sync uuid now request e).0
perform (to_approve now id approver) e = (approve now id approver e).0
perform (to_reject id rejector) e = (reject id rejector e).0
perform (to_expire now) e = (expire_approvals now e).0
perform to_cleanup e = cleanup_resolved e

unfoldable pub perform_all : List Operation → DefaultPolicyEngine → DefaultPolicyEngine
perform_all [] e = e
perform_all (op ∷ ops) e = perform_all ops (perform op e)
