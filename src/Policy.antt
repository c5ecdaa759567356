-- ===== src/Policy.antt =====
-- crates/pact-policy: who may do what, and the approvals that some operations wait for.
pub mod Rbac
pub mod Roles
pub mod Kinds
pub mod Scoping
pub mod Emergencies
pub mod Engine
mod Examples
