-- ===== src/Policy/Scoping.antt =====
-- crates/pact-policy/src/rbac/mod.rs, `evaluate`: where a role is good, and for what.
use pact.Base.{
  String, String_eq, true, false, some, inl, inr, ◌⊎◌, ◌≡◌, ◌≢◌, refl, ◌==◌, ==_self, ==_cases,
  contains, ap, contains-append, contains-In, In-contains, In, List, [], ◌∷◌, ◌++◌, ◌||◌, Bool,
  arith, ◌↔◌, subst, sym, ◌∙◌,
}
use pact.Base.Text.{strip_prefix}
use pact.Types.{Identity, Scope, VClusterId, VClusterPolicy}
use pact.Policy.Rbac.{
  DenyReason, role_scoped, global_scope, RbacDecision, allow, deny, defer, evaluate, in_vcluster,
  by_role, extract_vcluster_from_role,
}
use pact.Policy.Kinds.{is_ops_action, by_role-viewer, by_role-ops}
use pact.Policy.Roles.{Names, viewer_role, regulated_role, ops_role, scoped-cases}

-- The request is not refused: it is allowed, or waits for a second person.
abbrev pub IsGranted : RbacDecision → Type 0
IsGranted allow = Unit
IsGranted (deny _) = ⊥
IsGranted defer = Unit

module _ (identity : Identity) (action : String) (policy : VClusterPolicy) {own : VClusterId} where
  in_vcluster-cases :
      (vc : VClusterId)
      → extract_vcluster_from_role identity.role ≡ some own
      → ((own ≡ vc) × (in_vcluster identity action vc policy ≡ by_role identity action own policy))
        ⊎ ((own ≢ vc)
            × ((reason : DenyReason) × (in_vcluster identity action vc policy ≡ deny reason)))
  unfolding in_vcluster
  in_vcluster-cases vc h = elim (==_cases own vc) [
    | inl e ↦ inl (
      e,
      subst (λ v. in_vcluster identity action v policy ≡ by_role identity action own policy) e
          (rw (in_vcluster, h, ==_self own) refl),
    )
    | inr (n, f) ↦ inr (n, (role_scoped identity.role own vc, rw (in_vcluster, h, f) refl))
  ]

  -- With a role of a vCluster: the kind of role decides in the scopes that name it, and all else is
  -- refused.
  pub evaluate-scoped :
      (scope : Scope)
      → extract_vcluster_from_role identity.role ≡ some own
      → (identity.role == "pact-platform-admin") ≡ false
      → (identity.role == "pact-service-ai") ≡ false
      → (Names scope own
          × (evaluate identity action scope policy ≡ by_role identity action own policy))
        ⊎ ((Names scope own → ⊥)
            × ((reason : DenyReason) × (evaluate identity action scope policy ≡ deny reason)))
  unfolding evaluate
  evaluate-scoped Scope.global h a i = inr ((λ w. w), (global_scope, rw (a, i) refl))
  evaluate-scoped (Scope.vcluster vc) h a i = elim (in_vcluster-cases vc h) [
    | inl (e, f) ↦ inl (e, rw (a, i) f)
    | inr (n, (r, f)) ↦ inr (n, (r, rw (a, i) f))
  ]
  evaluate-scoped (Scope.node vc) h a i = elim (in_vcluster-cases vc h) [
    | inl (e, f) ↦ inl (e, rw (a, i) f)
    | inr (n, (r, f)) ↦ inr (n, (r, rw (a, i) f))
  ]

-- A role with the prefix of a kind is none of the two fixed roles.
pub named_neither :
    (role : String) {own : VClusterId}
    → extract_vcluster_from_role role ≡ some own
    → ((role == "pact-platform-admin") ≡ false) × ((role == "pact-service-ai") ≡ false)
named_neither role h = elim (scoped-cases role h) [
  | inl v ↦ let (_, _, a, i) = viewer_role role v in (a, i)
  | inr (inl r) ↦ let (_, _, _, a, i) = regulated_role role r in (a, i)
  | inr (inr o) ↦ let (_, _, _, _, a, i) = ops_role role o in (a, i)
]

-- The actions that read, those that write, and those of an operator.
abbrev pub reading : List String
reading = "status" ∷ "diff" ∷ "log" ∷ []

abbrev pub writing : List String
writing =
    "commit" ∷ "rollback" ∷ "exec" ∷ "shell" ∷ "service_start" ∷ "service_stop" ∷ "service_restart"
    ∷ []

abbrev pub operating : List String
operating = reading ++ writing ++ ("emergency_start" ∷ "emergency_end" ∷ "approve" ∷ [])

or_table : (r w s e a : Bool) → (r || (w || (s || (e || (a || false))))) ≡ (r || w || (s || e) || a)
or_table r w s e a = ground arith

operating_iff : (action : String) → In action operating ↔ (is_ops_action action ≡ true)
operating_iff action =
    let whole : contains operating action ≡ is_ops_action action =
      contains-append reading (writing ++ ("emergency_start" ∷ "emergency_end" ∷ "approve" ∷ []))
        action
      ∙ ap (λ rest. contains reading action || rest)
          (contains-append writing ("emergency_start" ∷ "emergency_end" ∷ "approve" ∷ []) action)
      ∙ or_table (contains reading action) (contains writing action) (action == "emergency_start")
          (action == "emergency_end") (action == "approve") in
    (λ m. sym whole ∙ In-contains operating action m, λ h. contains-In operating action (whole ∙ h))

module _ (identity : Identity) (action : String) (scope : Scope) (policy : VClusterPolicy)
    {own : VClusterId} where
  -- From an answer of the kind of role to that of the whole evaluation.
  Names-own :
      (answer : RbacDecision) (P : Type 0)
      → IsGranted answer
      → extract_vcluster_from_role identity.role ≡ some own
      → P ↔ (by_role identity action own policy ≡ answer)
      → (Names scope own × P) ↔ (evaluate identity action scope policy ≡ answer)
  Names-own answer P g h e =
      let (a, i) = named_neither identity.role h in
      elim (evaluate-scoped identity action policy scope h a i) [
        | inl (w, f) ↦ ((λ p. f ∙ e.0 p.1), λ q. (w, e.1 (sym f ∙ q)))
        | inr (n, (r, f)) ↦ ((λ p. absurd (n p.0)), λ q. absurd (subst IsGranted (sym q ∙ f) g))
      ]

  -- With a viewer's role, a request is allowed if and only if its action is one of the reading ones and
  -- its scope is the role's vCluster or a node whose id is the name of that vCluster.
  pub viewer_allowed_iff :
      strip_prefix "pact-viewer-" identity.role ≡ some own
      → (Names scope own × In action reading) ↔ (evaluate identity action scope policy ≡ allow)
  viewer_allowed_iff h =
      let (towards, back) = by_role-viewer identity action policy h in
      Names-own allow (In action reading) tt ((viewer_role identity.role h).0)
        (λ m. towards (In-contains reading action m), λ q. contains-In reading action (back q))

  -- With the role of an operator, a request is allowed if and only if its action reads, writes, starts or
  -- ends an emergency, or approves, and its scope is the role's vCluster or a node whose id is the name
  -- of that vCluster. This holds also where the policy asks for two-person approval.
  pub ops_allowed_iff :
      strip_prefix "pact-ops-" identity.role ≡ some own
      → (Names scope own × In action operating) ↔ (evaluate identity action scope policy ≡ allow)
  ops_allowed_iff h =
      let (towards, back) = by_role-ops identity action policy h in
      Names-own allow (In action operating) tt ((ops_role identity.role h).0)
        (λ m. towards ((operating_iff action).0 m), λ q. (operating_iff action).1 (back q))
