-- ===== src/Types.antt =====
-- crates/pact-common/src/types.rs: the domain types that the modelled components share. A `DateTime`
-- is a count of nanoseconds since the epoch, an `f64` its bit pattern, an integer a number that its
-- users keep in range.
mod Entry
mod Node
mod Policy
pub mod Service
pub use Entry.*
pub use Node.*
pub use Policy.*
