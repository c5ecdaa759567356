-- ===== src/Journal/Enrollment/Scoping.antt =====
-- crates/pact-journal/src/enrollment_service.rs: which nodes a caller with the role of a vCluster sees.
use Prim.Native.String.{◌++◌}
use Prim.Native.Char.{Char}
use Prim.Native.String.append
use text.Mathlib.TextLemmas.{append_assoc}
use pact.Base.{
  ◌≡◌, refl, sym, ◌∙◌, ap, subst, ◌||◌, ◌⊎◌, ◌↔◌, inl, inr, String, String_eq, Bool, true, false,
  ◌&&◌, List, [], ◌∷◌, ◌++◌ as ◌+++◌, ◌==◌, some, map, select, drop, In, In-map, In-map_of,
  In-select, In-select_of, Bool-cases, ==_true, ==_false, ==_self, Option-cases,
}
use pact.Base.Text.{starts_with, strip_prefix}
use pact.Base.Parts.{split, join, split-append, join-split, starts_with-Begins}
use pact.Types.{NodeId, VClusterId, Identity, NodeEnrollment}
use pact.Journal.State.{JournalState, Library}
use pact.Journal.Wire.{answer}
use pact.Journal.Enrollment.{Header, EnrollmentService, admin_role, caller}
use pact.Journal.Enrollment.Listing.{
  ListNodesRequest, NodeSummary, after_two_dashes, is_scoped, allowed_vcluster, is_in,
  passes_filters, is_listed, summary, nodes_for, list_nodes,
}

-- The role of an operator or a viewer of one vCluster.
abbrev pub IsRoleOf : VClusterId → String → Type 0
IsRoleOf vc role = (role ≡ "pact-ops-" ++ vc) ⊎ (role ≡ "pact-viewer-" ++ vc)

dash : Char
dash = "-"

-- What stands behind the second dash of such a role is the vCluster, dashes included.
third_part :
    (a vc : String)
    → split 45 a ≡ a ∷ []
    → after_two_dashes ("pact" ++ "-" ++ (a ++ "-" ++ vc)) ≡ vc
unfolding after_two_dashes dash
third_part a vc whole =
    let one : split 45 ("pact" ++ "-" ++ (a ++ "-" ++ vc)) ≡ "pact" ∷ a ∷ split 45 vc =
      two_splits in
    ap (λ t. join "-" (drop 2 t)) one ∙ join-split "-" vc
  where
    dash-append : (s : String) → "-" ++ s ≡ String.◌∷◌ "-" s
    dash-append s = append.cons "-" String.[] s ∙ ap (λ t. String.◌∷◌ "-" t) (append.nil s)

    two_splits : split 45 ("pact" ++ "-" ++ (a ++ "-" ++ vc)) ≡ "pact" ∷ a ∷ split 45 vc
    two_splits =
        ap (λ t. split 45 ("pact" ++ t)) (dash-append (a ++ "-" ++ vc))
        ∙ split-append 45 "pact" "-" (a ++ "-" ++ vc) refl
        ∙ ap (λ t. split 45 "pact" +++ split 45 (a ++ t)) (dash-append vc)
        ∙ ap (λ t. split 45 "pact" +++ t) (split-append 45 a "-" vc refl)
        ∙ ap (λ t. split 45 "pact" +++ (t +++ split 45 vc)) whole
        ∙ (unfold split in refl)

regroup_ops : (vc : String) → "pact-ops-" ++ vc ≡ "pact" ++ "-" ++ ("ops" ++ "-" ++ vc)
regroup_ops vc =
    append_assoc "pact" "-ops-" vc
    ∙ ap (λ t. "pact" ++ t) (append_assoc "-" "ops-" vc)
    ∙ ap (λ t. "pact" ++ "-" ++ t) (append_assoc "ops" "-" vc)

regroup_viewer : (vc : String) → "pact-viewer-" ++ vc ≡ "pact" ++ "-" ++ ("viewer" ++ "-" ++ vc)
regroup_viewer vc =
    append_assoc "pact" "-viewer-" vc
    ∙ ap (λ t. "pact" ++ t) (append_assoc "-" "viewer-" vc)
    ∙ ap (λ t. "pact" ++ "-" ++ t) (append_assoc "viewer" "-" vc)

-- A role that begins otherwise than the administrator's is another role.
other_role :
    (p role : String)
    → starts_with p role ≡ true
    → starts_with p admin_role ≡ false
    → (role == admin_role) ≡ false
other_role p role h k = ==_false role admin_role (λ e. cc (h, k, e))

after_dashes : (vc role : String) → IsRoleOf vc role → after_two_dashes role ≡ vc
unfolding split
after_dashes vc role (inl e) = ap after_two_dashes (e ∙ regroup_ops vc) ∙ third_part "ops" vc refl
after_dashes vc role (inr e) =
    ap after_two_dashes (e ∙ regroup_viewer vc) ∙ third_part "viewer" vc refl

allowed_vcluster-own : (vc role : String) → IsRoleOf vc role → allowed_vcluster role ≡ some vc
unfolding allowed_vcluster is_scoped
allowed_vcluster-own vc role h = rw (distinct h) (rw (scoped h) (ap some (after_dashes vc role h)))
  where
    distinct : IsRoleOf vc role → (role == admin_role) ≡ false
    distinct (inl e) =
        other_role "pact-ops-" role ((starts_with-Begins "pact-ops-" role).1 (vc, e))
          (unfold starts_with strip_prefix in refl)
    distinct (inr e) =
        other_role "pact-viewer-" role ((starts_with-Begins "pact-viewer-" role).1 (vc, e))
          (unfold starts_with strip_prefix in refl)

    scoped :
        IsRoleOf vc role → (starts_with "pact-ops-" role || starts_with "pact-viewer-" role) ≡ true
    scoped (inl e) = rw ((starts_with-Begins "pact-ops-" role).1 (vc, e)) refl
    scoped (inr e) = elim (Bool-cases (starts_with "pact-ops-" role)) [
      | inl p ↦ rw p refl
      | inr p ↦ rw p ((starts_with-Begins "pact-viewer-" role).1 (vc, e))
    ]

is_in_iff : (v : VClusterId) (e : NodeEnrollment) → (is_in v e ≡ true) ↔ (e.vcluster_id ≡ some v)
is_in_iff v e = elim (Option-cases e.vcluster_id) [
  | inl p ↦ rw p (λ h. cc, λ h. cc)
  | inr (w, p) ↦ rw p (λ h. ap some (==_true w v h), λ h. cc (==_self v, h))
]

both : (a b : Bool) → (a && b) ≡ true → (a ≡ true) × (b ≡ true)
both true b h = (refl, h)
both false b h = cc

-- The rows that are listed for a caller with the role of an operator or a viewer of a vCluster are just
-- those of the enrolled nodes of that vCluster that pass the filters of the request.
pub list_nodes-scoped_iff :
    {lib : Library} (svc : EnrollmentService lib) (header : Header) (req : ListNodesRequest)
    (s : JournalState) (id : Identity) (vc : VClusterId) (rows : List NodeSummary)
    (row : NodeSummary)
    → caller svc header ≡ answer id
    → IsRoleOf vc id.role
    → list_nodes svc header req s ≡ answer rows
    → In row rows ↔ (
        (n : NodeId) × (e : NodeEnrollment) × In (n, e) s.enrollments
        × (e.vcluster_id ≡ some vc)
        × (passes_filters req e ≡ true)
        × (row ≡ summary svc.rcgen.to_rfc3339 e))
unfolding list_nodes nodes_for is_listed
list_nodes-scoped_iff svc header req s id vc rows row known role listed = (towards, back)
  where
    keep : NodeId × NodeEnrollment → Bool
    keep b = is_listed (allowed_vcluster id.role) req b.1

    show : NodeId × NodeEnrollment → NodeSummary
    show b = summary svc.rcgen.to_rfc3339 b.1

    same : map show (select keep s.enrollments) ≡ rows
    same = cc (rw (known, list_nodes) at listed)

    kept : (b : NodeId × NodeEnrollment) → keep b ≡ (is_in vc b.1 && passes_filters req b.1)
    kept b = rw (allowed_vcluster-own vc id.role role) refl

    towards :
        In row rows
        → (n : NodeId) × (e : NodeEnrollment) × In (n, e) s.enrollments
          × (e.vcluster_id ≡ some vc)
          × (passes_filters req e ≡ true)
          × (row ≡ summary svc.rcgen.to_rfc3339 e)
    towards m =
        let ((n, e), inside, shown) =
          In-map show (select keep s.enrollments) row (subst (λ t. In row t) (sym same) m) in
        let (here_it_is, passes) = In-select keep s.enrollments (n, e) inside in
        let (own, filtered) =
          both (is_in vc e) (passes_filters req e) (sym (kept (n, e)) ∙ passes) in
        (n, e, here_it_is, (is_in_iff vc e).0 own, filtered, shown)

    back :
        ((n : NodeId) × (e : NodeEnrollment) × In (n, e) s.enrollments
          × (e.vcluster_id ≡ some vc)
          × (passes_filters req e ≡ true)
          × (row ≡ summary svc.rcgen.to_rfc3339 e))
        → In row rows
    back (n, e, inside, own, filtered, shown) =
        subst (λ t. In row t) same
          (subst (λ r. In r (map show (select keep s.enrollments))) (sym shown)
            (In-map_of show (select keep s.enrollments) (n, e)
              (In-select_of keep s.enrollments (n, e) inside
                (kept (n, e) ∙ rw ((is_in_iff vc e).1 own) filtered))))
