-- ===== src/Policy/Roles.antt =====
-- crates/pact-policy/src/rbac/mod.rs: what the role alone permits.
use pact.Base.{
  String, String_eq, true, false, none, some, inl, inr, ◌⊎◌, ◌≡◌, refl, ◌==◌, ==_false, ap,
  Option-cases,
}
use pact.Base.Text.{strip_prefix, strip_prefix_two, starts_with}
use pact.Types.{Scope, VClusterId}
use pact.Policy.Rbac.{extract_vcluster_from_role}

-- What `evaluate` takes for the role's own vCluster: the scope of that vCluster, and that of a node whose
-- id is the vCluster's name. The code compares the node's id itself, and does not ask which vCluster the
-- node is assigned to.
abbrev pub Names : Scope → VClusterId → Type 0
Names Scope.global own = ⊥
Names (Scope.vcluster vc) own = own ≡ vc
Names (Scope.node vc) own = own ≡ vc

-- Neither of two prefixes is a prefix of the other, so a role has one of them at most.
other_prefix :
    (p q role : String) {vc : VClusterId}
    → strip_prefix p q ≡ none
    → strip_prefix q p ≡ none
    → strip_prefix p role ≡ some vc
    → strip_prefix q role ≡ none
other_prefix p q role h k e = elim (Option-cases (strip_prefix q role)) [
  | inl n ↦ n
  | inr (b, f) ↦ elim (strip_prefix_two p q role e f) [
    | inl x ↦ absurd (x h)
    | inr y ↦ absurd (y k)
  ]
]

pub starts_with-some :
    (p role : String) {vc : VClusterId} → strip_prefix p role ≡ some vc → starts_with p role ≡ true
unfolding starts_with
starts_with-some p role h = rw (h, starts_with) refl

pub starts_with-none : (p role : String) → strip_prefix p role ≡ none → starts_with p role ≡ false
unfolding starts_with
starts_with-none p role h = rw (h, starts_with) refl

-- A role with a prefix that a fixed name lacks is not that name.
pub not_named :
    (p name role : String) {vc : VClusterId}
    → strip_prefix p name ≡ none
    → strip_prefix p role ≡ some vc
    → (role == name) ≡ false
not_named p name role h e = ==_false role name (λ q. cc (h, e, ap (strip_prefix p) q))

abbrev viewer_prefix : String
viewer_prefix = "pact-viewer-"

abbrev regulated_prefix : String
regulated_prefix = "pact-regulated-"

abbrev ops_prefix : String
ops_prefix = "pact-ops-"

-- No two of the three prefixes begin alike.
apart :
    (strip_prefix viewer_prefix ops_prefix ≡ none)
    × (strip_prefix ops_prefix viewer_prefix ≡ none)
    × (strip_prefix regulated_prefix ops_prefix ≡ none)
    × (strip_prefix ops_prefix regulated_prefix ≡ none)
    × (strip_prefix regulated_prefix viewer_prefix ≡ none)
    × (strip_prefix viewer_prefix regulated_prefix ≡ none)
unfolding strip_prefix
apart = (refl, refl, refl, refl, refl, refl)

-- No prefix is one of a fixed role.
unnamed :
    (strip_prefix viewer_prefix "pact-platform-admin" ≡ none)
    × (strip_prefix viewer_prefix "pact-service-ai" ≡ none)
    × (strip_prefix regulated_prefix "pact-platform-admin" ≡ none)
    × (strip_prefix regulated_prefix "pact-service-ai" ≡ none)
    × (strip_prefix ops_prefix "pact-platform-admin" ≡ none)
    × (strip_prefix ops_prefix "pact-service-ai" ≡ none)
unfolding strip_prefix
unnamed = (refl, refl, refl, refl, refl, refl)

-- A role of one kind with its vCluster: what the chain of tests finds.
module _ (role : String) {own : VClusterId} where
  pub viewer_role :
      strip_prefix "pact-viewer-" role ≡ some own
      → (extract_vcluster_from_role role ≡ some own)
        × (starts_with "pact-viewer-" role ≡ true)
        × ((role == "pact-platform-admin") ≡ false)
        × ((role == "pact-service-ai") ≡ false)
  unfolding extract_vcluster_from_role
  viewer_role h =
      let (vo, ov, _, _, _, _) = apart in
      let (va, vi, _, _, _, _) = unnamed in
      let o : strip_prefix "pact-ops-" role ≡ none = other_prefix _ _ role vo ov h in
      (
        rw (extract_vcluster_from_role, o, h) refl,
        starts_with-some _ role h,
        not_named _ _ role va h,
        not_named _ _ role vi h,
      )

  pub regulated_role :
      strip_prefix "pact-regulated-" role ≡ some own
      → (extract_vcluster_from_role role ≡ some own)
        × (starts_with "pact-viewer-" role ≡ false)
        × (starts_with "pact-regulated-" role ≡ true)
        × ((role == "pact-platform-admin") ≡ false)
        × ((role == "pact-service-ai") ≡ false)
  unfolding extract_vcluster_from_role
  regulated_role h =
      let (_, _, ro, or, rv, vr) = apart in
      let (_, _, ra, ri, _, _) = unnamed in
      let o : strip_prefix "pact-ops-" role ≡ none = other_prefix _ _ role ro or h in
      let v : strip_prefix "pact-viewer-" role ≡ none = other_prefix _ _ role rv vr h in
      (
        rw (extract_vcluster_from_role, o, v) h,
        starts_with-none _ role v,
        starts_with-some _ role h,
        not_named _ _ role ra h,
        not_named _ _ role ri h,
      )

  pub ops_role :
      strip_prefix "pact-ops-" role ≡ some own
      → (extract_vcluster_from_role role ≡ some own)
        × (starts_with "pact-viewer-" role ≡ false)
        × (starts_with "pact-regulated-" role ≡ false)
        × (starts_with "pact-ops-" role ≡ true)
        × ((role == "pact-platform-admin") ≡ false)
        × ((role == "pact-service-ai") ≡ false)
  unfolding extract_vcluster_from_role
  ops_role h =
      let (vo, ov, ro, or, _, _) = apart in
      let (_, _, _, _, oa, oi) = unnamed in
      let v : strip_prefix "pact-viewer-" role ≡ none = other_prefix _ _ role ov vo h in
      let r : strip_prefix "pact-regulated-" role ≡ none = other_prefix _ _ role or ro h in
      (
        rw (extract_vcluster_from_role, h) refl,
        starts_with-none _ role v,
        starts_with-none _ role r,
        starts_with-some _ role h,
        not_named _ _ role oa h,
        not_named _ _ role oi h,
      )

-- A role that names a vCluster is of one of the three kinds.
pub scoped-cases :
    (role : String) {own : VClusterId}
    → extract_vcluster_from_role role ≡ some own
    → (strip_prefix "pact-viewer-" role ≡ some own)
      ⊎ (strip_prefix "pact-regulated-" role ≡ some own)
      ⊎ (strip_prefix "pact-ops-" role ≡ some own)
unfolding extract_vcluster_from_role
scoped-cases role h = elim (Option-cases (strip_prefix "pact-ops-" role)) [
  | inr (a, e) ↦ inr (inr (cc (rw (extract_vcluster_from_role, e) at h)))
  | inl n ↦ elim (Option-cases (strip_prefix "pact-viewer-" role)) [
    | inr (a, e) ↦ inl (cc (rw (extract_vcluster_from_role, n, e) at h))
    | inl n' ↦ inr (inl (rw (extract_vcluster_from_role, n, n') at h))
  ]
]
