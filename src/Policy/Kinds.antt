-- ===== src/Policy/Kinds.antt =====
-- crates/pact-policy/src/rbac/mod.rs, `by_role`: what a role of each kind may do in its own vCluster.
use pact.Base.{
  String, String_eq, Bool, true, false, ◌&&◌, ◌||◌, if◌then◌else◌, List, [], ◌∷◌, arith, some, inl,
  inr, ◌≡◌, refl, ◌==◌, ==_cases, Bool-cases, contains, ap, ◌↔◌, any,
}
use pact.Base.Text.{strip_prefix}
use pact.Types.{Identity, VClusterId, VClusterPolicy}
use pact.Policy.Rbac.{
  DenyReason, ops_action, regulated_action, allow, deny, defer, read_actions, write_actions,
  is_emergency, by_role, viewer, regulated, ops,
}
use pact.Policy.Roles.{viewer_role, regulated_role, ops_role}

abbrev pub is_ops_action : String → Bool
is_ops_action action =
    contains read_actions action
    || contains write_actions action
    || is_emergency action
    || action == "approve"

-- The lists of actions do not hold the change of a policy.
not_update :
    (p : String → Bool) (action : String)
    → p "policy_update" ≡ false
    → p action ≡ true
    → (action == "policy_update") ≡ false
not_update p action n h = elim (==_cases action "policy_update") [
  | inr (_, f) ↦ f
  | inl e ↦ cc (n, h, ap p e)
]

ops_table :
    (r w e a : Bool) (reason : DenyReason)
    → ((r || w || e || a) ≡ true)
      ↔ ((if r || w then allow else if e then allow else if a then allow else deny reason) ≡ allow)
ops_table r w e a reason = ground arith

regulated_table :
    (r w a two : Bool) (reason : DenyReason)
    → (w ≡ true → r ≡ false)
    → ((two && w) ≡ true) ↔ (
        (if r then allow else if two && w then defer else if w || a then allow else deny reason)
        ≡ defer)
regulated_table r w a two reason h = ground arith

and_right : (a b : Bool) → (a && b) ≡ true → b ≡ true
and_right a b h = ground arith

none_of :
    (p : String → Bool) (actions : List String) (action : String)
    → any p actions ≡ false
    → contains actions action ≡ true
    → p action ≡ false
none_of p [] action n h = cc
none_of p (x ∷ xs) action n h = elim (==_cases action x) [
  | inl e ↦ let f : p x ≡ false = ground arith in cc (f, ap p e)
  | inr (_, f) ↦ none_of p xs action (ground arith) (rw f at h)
]

module _ (identity : Identity) (action : String) (policy : VClusterPolicy) {own : VClusterId} where
  pub by_role-viewer :
      strip_prefix "pact-viewer-" identity.role ≡ some own
      → (contains read_actions action ≡ true) ↔ (by_role identity action own policy ≡ allow)
  unfolding by_role viewer
  by_role-viewer h =
      let (_, v, _, _) = viewer_role identity.role h in
      let n : contains read_actions action ≡ true → (action == "policy_update") ≡ false =
        not_update (contains read_actions) action refl in
      rw v (ground arith)

  pub by_role-regulated :
      strip_prefix "pact-regulated-" identity.role ≡ some own
      → ((policy.two_person_approval && contains write_actions action) ≡ true)
        ↔ (by_role identity action own policy ≡ defer)
  unfolding by_role regulated
  by_role-regulated h =
      let (_, v, r, _, _) = regulated_role identity.role h in
      let n : contains write_actions action ≡ true → (action == "policy_update") ≡ false =
        not_update (contains write_actions) action refl in
      let m : contains write_actions action ≡ true → contains read_actions action ≡ false =
        none_of (contains read_actions) write_actions action refl in
      elim (Bool-cases (action == "policy_update")) [
        | inl u ↦ (
          (λ q.
              let w : contains write_actions action ≡ true =
                and_right policy.two_person_approval _ q in
              let f : (action == "policy_update") ≡ false = n w in absurd (cc (u, f))),
          λ q. cc (rw (v, r, u) at q),
        )
        | inr u ↦
            rw (v, r, u)
              (regulated_table (contains read_actions action) (contains write_actions action)
                (action == "approve") policy.two_person_approval (regulated_action action) m)
      ]

  pub by_role-ops :
      strip_prefix "pact-ops-" identity.role ≡ some own
      → (is_ops_action action ≡ true) ↔ (by_role identity action own policy ≡ allow)
  unfolding by_role ops
  by_role-ops h =
      let (_, v, r, o, _, _) = ops_role identity.role h in
      let n : is_ops_action action ≡ true → (action == "policy_update") ≡ false =
        not_update is_ops_action action refl in
      elim (Bool-cases (action == "policy_update")) [
        | inl u ↦ ((λ q. absurd (cc (u, n q))), λ q. cc (rw (v, r, o, u) at q))
        | inr u ↦
            rw (v, r, o, u)
              (ops_table (contains read_actions action) (contains write_actions action)
                (is_emergency action) (action == "approve") (ops_action action))
      ]
