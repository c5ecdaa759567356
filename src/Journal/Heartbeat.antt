-- ===== src/Journal/Heartbeat.antt =====
-- crates/pact-journal/src/heartbeat.rs: one round of the monitor. The clock of a check is `now`; what
-- it proposes is applied at `later`, which neither command reads.
mod Writes
pub mod Timeouts
pub mod Expiry
use pact.Base.{
  ℕ, ◌+◌, String, Bool, true, false, ◌&&◌, Option, none, some, List, [], ◌∷◌, map, ltb, select,
}
use pact.Types.{
  DateTime, seconds, NodeId, NodeEnrollment, EnrollmentState, Identity, PrincipalType,
  ApprovalStatus, PendingApproval, is_pending,
}
use pact.Journal.Command.{JournalCommand}
use pact.Journal.State.{JournalState, Library}
use pact.Journal.Raft.{Raft}

abbrev pub is_active : EnrollmentState → Bool
is_active EnrollmentState.active = true
is_active _ = false

-- `last_seen.is_some_and(|ls| now.signed_duration_since(ls) > timeout)`.
abbrev pub silent_for : DateTime → ℕ → Option DateTime → Bool
silent_for now timeout_seconds none = false
silent_for now timeout_seconds (some ls) = ltb (ls + seconds timeout_seconds) now

unfoldable pub timed_out : DateTime → ℕ → NodeEnrollment → Bool
timed_out now timeout_seconds e = is_active e.state && silent_for now timeout_seconds e.last_seen

-- The loop over the ids found: one write for each, whose result is only logged.
unfoldable pub write_all :
    {lib : Library}
    → Raft lib
    → DateTime
    → (String → JournalCommand)
    → List String
    → JournalState
    → JournalState
write_all raft later command [] s = s
write_all raft later command (id ∷ ids) s =
    write_all raft later command ids (raft.client_write later (command id) s).0

unfoldable pub timed_out_nodes : DateTime → ℕ → JournalState → List NodeId
timed_out_nodes now timeout_seconds s =
    map (λ b. b.1.node_id) (select (λ b. timed_out now timeout_seconds b.1) s.enrollments)

unfoldable pub check_timeouts :
    {lib : Library} → Raft lib → ℕ → DateTime → DateTime → JournalState → JournalState
check_timeouts raft timeout_seconds now later s =
    write_all raft later (λ n. JournalCommand.deactivate_node n)
      (timed_out_nodes now timeout_seconds s) s

abbrev pub system : Identity
system = record {
  principal = "system";
  principal_type = PrincipalType.service;
  role = "pact-service-agent";
}

unfoldable pub overdue : DateTime → PendingApproval → Bool
overdue now a = is_pending a.status && ltb a.expires_at now

abbrev pub expire : String → JournalCommand
expire id = JournalCommand.decide_approval id system ApprovalStatus.expired

unfoldable pub expire_approvals :
    {lib : Library} → Raft lib → DateTime → DateTime → JournalState → JournalState
expire_approvals raft now later s =
    write_all raft later expire
      (map (λ b. b.1.approval_id) (select (λ b. overdue now b.1) s.pending_approvals)) s

-- One round of `run`'s loop: both checks with their own clocks.
unfoldable pub tick :
    {lib : Library}
    → Raft lib
    → ℕ
    → DateTime
    → DateTime
    → DateTime
    → DateTime
    → JournalState
    → JournalState
tick raft timeout_seconds now later now' later' s =
    expire_approvals raft now' later' (check_timeouts raft timeout_seconds now later s)
