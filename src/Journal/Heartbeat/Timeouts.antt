-- ===== src/Journal/Heartbeat/Timeouts.antt =====
-- crates/pact-journal/src/heartbeat.rs: what a check of the timeouts does to the nodes.
use mathlib.Core.Option
use pact.Base.{
  ◌+◌, ◌*◌, ◌<◌, true, false, Bool-cases, Option-cases, ℕ, ◌≡◌, refl, ◌∙◌, ap, ◌⊎◌, inl, inr, none,
  some, ◌==◌, String_eq, arith, ==_cases, ==_self, if◌then◌else◌,
}
use pact.Base.Map.{Each, lookup, lookup-insert}
use pact.Base.Bindings.{IsDistinct}
use pact.Types.{DateTime, NodeId, NodeEnrollment, EnrollmentState}
use pact.Journal.Command.{JournalCommand}
use pact.Journal.State.{JournalState, Library}
use pact.Journal.Handlers.{deactivate_node, put_enrollment}
use pact.Journal.Apply.{apply}
use pact.Journal.Raft.{Raft, IsAnswering}
use pact.Journal.Heartbeat.{timed_out, timed_out_nodes, check_timeouts}
use pact.Journal.Heartbeat.Writes.{chosen, write_chosen-lookup}

inactivated : NodeEnrollment → NodeEnrollment
inactivated e = record e { state = EnrollmentState.inactive }

-- A node that is not enrolled stays so; an enrolled one becomes inactive.
deactivate_node-enrollments :
    (m : NodeId) (s : JournalState)
    → ((lookup m s.enrollments ≡ none) × ((deactivate_node m s).0 ≡ s))
      ⊎ ((e : NodeEnrollment) × (lookup m s.enrollments ≡ some e)
          × ((deactivate_node m s).0 ≡ put_enrollment m (inactivated e) s))
unfolding deactivate_node inactivated
deactivate_node-enrollments m s = ground arith

-- What a deactivation does to the record of each node.
deactivate_node-lookup :
    (m n : NodeId) (s : JournalState)
    → lookup n (deactivate_node m s).0.enrollments
      ≡ (if m == n then Option.map inactivated (lookup n s.enrollments) else lookup n s.enrollments)
deactivate_node-lookup m n s = elim (deactivate_node-enrollments m s) [
  | inl (absent, unchanged) ↦ elim (==_cases m n) [
    | inl same ↦ rw same (rw (==_self n) (cc (unchanged, absent, same)))
    | inr (differ, test) ↦ rw test (ap (λ (t : JournalState). lookup n t.enrollments) unchanged)
  ]
  | inr (e, found, put) ↦
      ap (λ (t : JournalState). lookup n t.enrollments) put
      ∙ lookup-insert n m (inactivated e) s.enrollments
      ∙ (elim (==_cases m n) [
        | inl same ↦ rw same (rw (==_self n) (cc (found, same)))
        | inr (differ, test) ↦ rw test refl
      ])
]

-- What one check is meant to do: every active node that has been silent for longer than the timeout
-- becomes inactive, and nothing else happens to any record.
unfoldable pub after_check : DateTime → ℕ → NodeEnrollment → NodeEnrollment
unfolding inactivated
after_check now timeout_seconds e = if timed_out now timeout_seconds e then inactivated e else e

check_timeouts-lookup :
    {lib : Library} (raft : Raft lib)
    → IsAnswering raft
    → (timeout_seconds : ℕ) (now later : DateTime) (s : JournalState)
    → Each (λ n e. e.node_id ≡ n) s.enrollments
    → IsDistinct s.enrollments
    → (n : NodeId)
    → lookup n (check_timeouts raft timeout_seconds now later s).enrollments
      ≡ Option.map (after_check now timeout_seconds) (lookup n s.enrollments)
unfolding check_timeouts timed_out_nodes after_check chosen
check_timeouts-lookup {lib} raft up timeout_seconds now later s owned d n =
    write_chosen-lookup raft up later (λ t. t.enrollments) (λ m. JournalCommand.deactivate_node m)
      inactivated (λ v. unfold inactivated in refl)
      (λ m k t. unfold apply in deactivate_node-lookup m k t) (λ e. e.node_id)
      (timed_out now timeout_seconds) n s owned d

-- An active node that was last seen more than the timeout ago.
abbrev pub IsSilent : DateTime → ℕ → NodeEnrollment → Type 0
IsSilent now timeout_seconds e =
    (e.state ≡ EnrollmentState.active)
    × ((ls : DateTime) × (e.last_seen ≡ some ls) × (ls + timeout_seconds * 1000000000 < now))

timed_out-cases :
    (now : DateTime) (timeout_seconds : ℕ) (e : NodeEnrollment)
    → (IsSilent now timeout_seconds e × (timed_out now timeout_seconds e ≡ true))
      ⊎ ((¬ IsSilent now timeout_seconds e) × (timed_out now timeout_seconds e ≡ false))
unfolding timed_out
timed_out-cases now timeout_seconds e = elim (Option-cases e.last_seen) [
  | inl unseen ↦ inr (λ (a, (ls, q, l)). cc (unseen, q), ground arith)
  | inr (ls, seen) ↦ elim (Bool-cases (timed_out now timeout_seconds e)) [
    | inl p ↦ inl ((ground arith, (ls, seen, ground arith)), p)
    | inr p ↦ inr (λ (a, (ls', q, l)). ground arith, p)
  ]
]

-- While Raft answers every write, and each record stands under its own id and is the only one there,
-- a check of the timeouts treats each enrolled node in one of two ways: a node that was active and last
-- seen more than the timeout ago has the same record but inactive; any other node has its record as it
-- was.
pub check_timeouts-enrollments :
    {lib : Library} (raft : Raft lib)
    → IsAnswering raft
    → (timeout_seconds : ℕ) (now later : DateTime) (s : JournalState)
    → Each (λ n e. e.node_id ≡ n) s.enrollments
    → IsDistinct s.enrollments
    → (n : NodeId) (e : NodeEnrollment) → lookup n s.enrollments ≡ some e
    → (IsSilent now timeout_seconds e
        × (lookup n (check_timeouts raft timeout_seconds now later s).enrollments
            ≡ some (record e { state = EnrollmentState.inactive })))
      ⊎ ((¬ IsSilent now timeout_seconds e)
          × (lookup n (check_timeouts raft timeout_seconds now later s).enrollments ≡ some e))
unfolding after_check inactivated
check_timeouts-enrollments raft up timeout_seconds now later s owned d n e found =
    let whole = check_timeouts-lookup raft up timeout_seconds now later s owned d n in
    elim (timed_out-cases now timeout_seconds e) [
      | inl (silent, p) ↦ inl (silent, cc (whole, found, p))
      | inr (heard, p) ↦ inr (heard, cc (whole, found, p))
    ]
