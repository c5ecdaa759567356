-- ===== src/Agent.antt =====
-- crates/pact-agent: the managers that an agent keeps on its node.
pub mod Conflict
pub mod Commit
pub mod Mounts
pub mod Emergency
pub mod Whitelist
pub mod Memory
pub mod Supervisor
pub mod Arguments
mod Examples
mod SystemExamples
