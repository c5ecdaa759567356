-- ===== src/Lib.antt =====
-- Verification library of pact, the configuration and administration plane for compute clusters.
--
-- A quorum of journals keeps the configuration of all nodes in a state machine that Raft replicates.
-- Requests are first authorised by role and policy, some wait for a second person, and what is
-- decided becomes a command of the log. Agents on the nodes follow the journal, and reconcile with
-- it what was changed on a node while it was cut off.
--
-- The files, and the code that each models:
--
-- - Base, with Base/Tests, Lists, Map, BTree, Bindings, Text, Parts and Decimal: what the modules
--   share. HashMap and BTreeMap are association lists; the methods of str stand by clauses on the
--   characters.
-- - Types, with Types/Entry, Node, Policy and Service: crates/pact-common/src/types.rs. A DateTime is a count
--   of nanoseconds, an f64 its bit pattern, a list of bytes a list of numbers.
-- - Journal/Command: JournalCommand and JournalResponse of crates/pact-journal/src/raft/types.rs.
-- - Journal/State, Handlers, Apply: crates/pact-journal/src/raft/state.rs. JournalState is the record
--   of that name, and every arm of apply is a function from a state to a new state and a response. A
--   log is replayed with the moment at which the replica applies each command, since two arms read
--   the clock. Journal/Conflicts and Homogeneity hold detect_conflicts and check_homogeneity.
-- - Journal/Entries, Limits, Hardware, Invariant, Lifecycle, Approvals, Rejections and Replicas: what
--   is proved of the state machine.
-- - Journal/Raft: client_write of openraft as an interface, with the outcomes that its documentation
--   names: applied and answered, or failed with the command applied or not.
-- - Journal/Wire, Convert and Service: ConfigService of crates/pact-journal/src/service.rs with the
--   messages of proto/pact/config.proto; the proofs stand in Journal/Convert/Roundtrip and
--   Journal/Service/Reading.
-- - Journal/Heartbeat: HeartbeatMonitor of crates/pact-journal/src/heartbeat.rs, with its proofs in
--   Journal/Heartbeat/Writes, Timeouts and Expiry.
-- - Journal/RateLimiter and Authority: crates/pact-journal/src/rate_limiter.rs and sign_csr of ca.rs.
-- - Journal/Enrollment, with Calls, Enroll and Listing: EnrollmentService of
--   crates/pact-journal/src/enrollment_service.rs; the proofs stand in Journal/Enrollment/Entitlement,
--   Scoping and Admission.
-- - Policy/Rbac: evaluate of crates/pact-policy/src/rbac/mod.rs; Policy/Roles, Kinds, Scoping
--   and Emergencies: what is proved of it.
-- - Policy/Engine: DefaultPolicyEngine of crates/pact-policy/src/rules/mod.rs, with its proofs in
--   Policy/Engine/Approving, Deferring and Vetting. The clock and the fresh identifier are arguments,
--   and the timeout, an i64, is a natural number: a negative one is not covered.
-- - Agent/Conflict: ConflictManager of crates/pact-agent/src/conflict/mod.rs, with its proofs in
--   Agent/Conflict/Pausing and Grace.
-- - Agent/Mounts: MountRefManager of crates/pact-agent/src/handoff/mounts.rs, where None is the panic
--   of the assertion in release; the names of mount points stand in Agent/Mounts/Paths, the proofs
--   in Agent/Mounts/Ledger and Counting.
-- - Agent/Commit: CommitWindowManager of crates/pact-agent/src/commit/mod.rs, with the operations of
--   f64 in a record; the proofs stand in Agent/Commit/Expiry.
-- - Agent/Emergency: EmergencyManager of crates/pact-agent/src/emergency/mod.rs, with its proofs in
--   Agent/Emergency/Ending.
-- - Agent/Whitelist and Arguments: WhitelistManager of crates/pact-agent/src/shell/whitelist.rs, with
--   the proofs in Agent/Whitelist/Updates, Agent/Arguments/Blocking and Detours.
-- - Agent/Supervisor, with Supervision and Services, and Agent/Memory: PactSupervisor and
--   parse_memory_value of crates/pact-agent/src/supervisor/pact_supervisor.rs; the proofs stand in
--   Agent/Supervisor/Tracking, Rounds, Runs and Ordering.
-- - Examples, ServiceExamples and SystemExamples: the theorems at concrete commands, requests and states, and test runs.
--
-- Messages of errors are constructors with the values that the text shows. Sequence numbers wrap at
-- 2 ^ 64, and where a theorem needs room for a log it asks that the next number and the length of
-- the log together stay below that. The loops are structural recursion; only the
-- decimal text of a number runs on fuel, twenty digits, which a u64 does not exceed.
-- Lower case is that of ASCII. The time stamp parser of chrono and the hash behind
-- compute_overlay_checksum (Rust leaves its algorithm open) are parameters, in the record Library.
--
-- The operating system under the supervisor is a record of functions over a world; the operations of
-- f64, rcgen and the token validator are parameters too. The fresh identifiers and the clock of a call
-- are arguments.
--
-- A handler of the journal, and a round of the heartbeat, runs alone: a write of another client between
-- a read of the state and the writes that follow from it is not modelled.
--
-- Not modelled: the gRPC transport and clients, the policy and boot services, shell sessions, drift
-- detection, isolation, network and hardware probes, the command line, the MCP server and the NSS
-- module, much of which is I/O or user interfaces over the parts above; Raft itself, which is a library.
mod Base
pub mod Types
pub mod Journal
pub mod Policy
pub mod Agent
