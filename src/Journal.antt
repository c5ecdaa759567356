-- ===== src/Journal.antt =====
-- crates/pact-journal/src/raft: the state machine that Raft replicates, and its queries.
pub mod Command
pub mod State
pub mod Raft
pub mod Wire
pub mod Convert
pub mod Service
pub mod Heartbeat
pub mod RateLimiter
pub mod Authority
pub mod Enrollment
pub mod Handlers
pub mod Apply
pub mod Rejections
pub mod Replicas
pub mod Entries
pub mod Hardware
pub mod Limits
pub mod Invariant
pub mod Lifecycle
pub mod Approvals
pub mod Conflicts
pub mod Homogeneity
mod Examples
mod ServiceExamples
