-- ===== src/Policy/Emergencies.antt =====
-- crates/pact-policy/src/rbac/mod.rs, `evaluate`: who starts and ends an emergency.
use pact.Base.{
  String, String_eq, Bool, true, false, ◌&&◌, List, [], ◌∷◌, none, some, inl, inr, ◌⊎◌, ◌≡◌, ◌≢◌,
  refl, sym, ◌∙◌, subst, ◌==◌, ==_cases, ==_true, contains-In, Bool-cases, Option-cases, contains,
  any, In, here, there, arith,
}
use pact.Base.Text.{strip_prefix}
use pact.Types.{Identity, Scope, VClusterId, VClusterPolicy, RoleBinding}
use pact.Policy.Rbac.{
  allow, read_actions, write_actions, is_emergency, evaluate, in_vcluster, by_role, binds,
  role_bindings, extract_vcluster_from_role, regulated, service_agent,
}
use pact.Policy.Roles.{Names, regulated_role, scoped-cases, starts_with-none}
use pact.Policy.Kinds.{by_role-viewer}
use pact.Policy.Scoping.{evaluate-scoped}

-- The action stands in none of the lists by which the other roles are allowed something.
record IsUnlisted (action : String) : Type 0 where
  pub read : contains read_actions action ≡ false
  pub write : contains write_actions action ≡ false
  pub approves : (action == "approve") ≡ false
  pub updates : (action == "policy_update") ≡ false
  pub status : (action == "status") ≡ false
  pub log : (action == "log") ≡ false
  pub emergency : is_emergency action ≡ true

emergency-IsUnlisted : (action : String) → is_emergency action ≡ true → IsUnlisted action
emergency-IsUnlisted action h = elim (==_cases action "emergency_start") [
  | inl p ↦ subst IsUnlisted (sym p) (record {
    read = refl;
    write = refl;
    approves = refl;
    updates = refl;
    status = refl;
    log = refl;
    emergency = refl;
  })
  | inr (_, p) ↦ elim (==_cases action "emergency_end") [
    | inl q ↦ subst IsUnlisted (sym q) (record {
      read = refl;
      write = refl;
      approves = refl;
      updates = refl;
      status = refl;
      log = refl;
      emergency = refl;
    })
    | inr (_, q) ↦ absurd (ground (arith, h, p, q))
  ]
]

and_false : (a : Bool) → (a && false) ≡ false
and_false a = ground arith

-- A binding of the policy that is made for the identity and lists the action itself.
pub record IsExplicit (identity : Identity) (action : String) (policy : VClusterPolicy)
    : Type 0 where
  pub binding : RoleBinding
  pub binding_in : In binding policy.role_bindings
  pub role : binding.role ≡ identity.role
  pub principal : In identity.principal binding.principals
  pub listed : In action binding.allowed_actions

any-In :
    (actions : List String) (action : String)
    → any (λ a. a == action) actions ≡ true
    → In action actions
any-In [] action h = cc
any-In (x ∷ xs) action h = elim (==_cases x action) [
  | inl p ↦ here (sym p)
  | inr (_, f) ↦ there (any-In xs action (rw f at h))
]

IsExplicit-of :
    (identity : Identity) (action : String) (policy : VClusterPolicy) (b : RoleBinding)
    → In b policy.role_bindings
    → binds identity action b ≡ true
    → any (λ a. a == action) b.allowed_actions ≡ true
    → IsExplicit identity action policy
IsExplicit-of identity action policy b i q l = record {
  binding = b;
  binding_in = i;
  role = ==_true b.role identity.role (ground (arith, q));
  principal = contains-In b.principals identity.principal (ground (arith, q));
  listed = any-In b.allowed_actions action l;
}

module _ (identity : Identity) (action : String) (emergency : is_emergency action ≡ true) where
  role_bindings-grants :
      (bindings : List RoleBinding)
      → role_bindings identity action bindings ≡ allow
      → (b : RoleBinding) × In b bindings
        × (binds identity action b ≡ true)
        × (any (λ a. a == action) b.allowed_actions ≡ true)
  unfolding role_bindings
  role_bindings-grants [] h = cc
  role_bindings-grants (b ∷ bindings) h = elim (Bool-cases (binds identity action b)) [
    | inl p ↦ elim (Bool-cases (any (λ a. a == action) b.allowed_actions)) [
      | inl q ↦ (b, here refl, p, q)
      | inr q ↦ cc (rw (p, emergency, q) at h)
    ]
    | inr p ↦ let (c, i, q, r) = role_bindings-grants bindings (rw p at h) in (c, there i, q, r)
  ]

module _ (identity : Identity) (action : String) (policy : VClusterPolicy)
    (u : IsUnlisted action) where
  viewer_not :
      {own : VClusterId}
      → strip_prefix "pact-viewer-" identity.role ≡ some own
      → by_role identity action own policy ≢ allow
  viewer_not h e = let r = (by_role-viewer identity action policy h).1 e in cc (r, u.read)

  regulated_not :
      {own : VClusterId}
      → strip_prefix "pact-regulated-" identity.role ≡ some own
      → by_role identity action own policy ≢ allow
  unfolding by_role regulated
  regulated_not h e =
      let (_, v, r, _, _) = regulated_role identity.role h in
      cc (
        rw (u.updates, v, r, u.read, u.write, and_false policy.two_person_approval, u.approves) at
          e)

  -- Without a vCluster in the role, and not for an artificial agent, only a binding allows it.
  unscoped-IsExplicit :
      (vc : VClusterId)
      → strip_prefix "pact-viewer-" identity.role ≡ none
      → strip_prefix "pact-regulated-" identity.role ≡ none
      → strip_prefix "pact-ops-" identity.role ≡ none
      → (identity.role == "pact-service-ai") ≡ false
      → by_role identity action vc policy ≡ allow
      → IsExplicit identity action policy
  unfolding by_role service_agent
  unscoped-IsExplicit vc v r o ai e =
      let sv = starts_with-none _ identity.role v in
      let sr = starts_with-none _ identity.role r in
      let so = starts_with-none _ identity.role o in
      elim (Bool-cases (identity.role == "pact-service-agent")) [
        | inl agent ↦ cc (rw (u.updates, sv, sr, so, agent, u.status, u.log) at e)
        | inr agent ↦
            let (b, i, q, l) =
              role_bindings-grants identity action u.emergency policy.role_bindings
                (rw (u.updates, sv, sr, so, agent, ai) at e) in
            IsExplicit-of identity action policy b i q l
      ]

-- A role that names no vCluster has none of the three prefixes.
unscoped-prefixes :
    (role : String)
    → extract_vcluster_from_role role ≡ none
    → (strip_prefix "pact-viewer-" role ≡ none)
      × (strip_prefix "pact-regulated-" role ≡ none)
      × (strip_prefix "pact-ops-" role ≡ none)
unfolding extract_vcluster_from_role
unscoped-prefixes role h = elim (Option-cases (strip_prefix "pact-ops-" role)) [
  | inr (a, p) ↦ cc (rw (extract_vcluster_from_role, p) at h)
  | inl o ↦ elim (Option-cases (strip_prefix "pact-viewer-" role)) [
    | inr (a, p) ↦ cc (rw (extract_vcluster_from_role, o, p) at h)
    | inl v ↦ (v, rw (extract_vcluster_from_role, o, v) at h, o)
  ]
]

-- Who is allowed to start and to end an emergency in the scope.
abbrev pub MayHandle : Identity → String → Scope → VClusterPolicy → Type 0
MayHandle identity action scope policy =
    (identity.role ≡ "pact-platform-admin")
    ⊎ ((own : VClusterId) × (strip_prefix "pact-ops-" identity.role ≡ some own) × Names scope own)
    ⊎ ((identity.role ≢ "pact-service-ai") × IsExplicit identity action policy)

module _ (identity : Identity) (action : String) (policy : VClusterPolicy)
    (emergency : is_emergency action ≡ true)
    (admin : (identity.role == "pact-platform-admin") ≡ false)
    (ai : (identity.role == "pact-service-ai") ≡ false) where
  unscoped-evaluate :
      (scope : Scope)
      → extract_vcluster_from_role identity.role ≡ none
      → evaluate identity action scope policy ≡ allow
      → IsExplicit identity action policy
  unfolding evaluate in_vcluster
  unscoped-evaluate Scope.global h e = cc (rw (admin, ai) at e)
  unscoped-evaluate (Scope.vcluster vc) h e =
      let (v, r, o) = unscoped-prefixes identity.role h in
      unscoped-IsExplicit identity action policy (emergency-IsUnlisted action emergency) vc v r o ai
        (rw (admin, ai, h) at e)
  unscoped-evaluate (Scope.node vc) h e =
      let (v, r, o) = unscoped-prefixes identity.role h in
      unscoped-IsExplicit identity action policy (emergency-IsUnlisted action emergency) vc v r o ai
        (rw (admin, ai, h) at e)

  scoped-evaluate :
      (scope : Scope) (own : VClusterId)
      → extract_vcluster_from_role identity.role ≡ some own
      → evaluate identity action scope policy ≡ allow
      → (strip_prefix "pact-ops-" identity.role ≡ some own) × Names scope own
  scoped-evaluate scope own h e = elim (evaluate-scoped identity action policy scope h admin ai) [
    | inr (_, (reason, f)) ↦ cc (e, f)
    | inl (w, f) ↦ elim (scoped-cases identity.role h) [
      | inl v ↦
          absurd (
            viewer_not identity action policy (emergency-IsUnlisted action emergency) v (sym f ∙ e))
      | inr (inl r) ↦ absurd (
          regulated_not identity action policy (emergency-IsUnlisted action emergency) r
            (sym f ∙ e))
      | inr (inr o) ↦ (o, w)
    ]
  ]

named-emergency :
    (action : String)
    → (action ≡ "emergency_start") ⊎ (action ≡ "emergency_end")
    → is_emergency action ≡ true
named-emergency action (inl p) = rw p refl
named-emergency action (inr p) = rw p refl

-- Starting or ending an emergency is allowed only to a platform administrator, to an operator whose
-- vCluster is the scope or has the scope's node id for its name, or to one whose role is not that of the
-- artificial agents and for whom a role binding of the policy lists that very action, not only a wildcard.
pub emergency_needs_grant :
    (identity : Identity) (action : String) (scope : Scope) (policy : VClusterPolicy)
    → (action ≡ "emergency_start") ⊎ (action ≡ "emergency_end")
    → evaluate identity action scope policy ≡ allow
    → MayHandle identity action scope policy
unfolding evaluate
emergency_needs_grant identity action scope policy named e =
    let emergency = named-emergency action named in
    elim (==_cases identity.role "pact-platform-admin") [
      | inl p ↦ inl p
      | inr (_, admin) ↦ elim (==_cases identity.role "pact-service-ai") [
        | inl q ↦
            let ai : (identity.role == "pact-service-ai") ≡ true = (String_eq.same_iff _ _).1 q in
            cc (rw (evaluate, admin, ai, emergency) at e)
        | inr (n, ai) ↦ elim (Option-cases (extract_vcluster_from_role identity.role)) [
          | inl h ↦
              inr (inr (n, unscoped-evaluate identity action policy emergency admin ai scope h e))
          | inr (own, h) ↦
              let (o, w) =
                scoped-evaluate identity action policy emergency admin ai scope own h e in
              inr (inl (own, o, w))
        ]
      ]
    ]
