-- ===== src/Context.antt =====
-- src/context.rs: the operations of a `ResourceContext`, and the life of one generation from its
-- construction to its supervisor's last step.
--
-- Where a function awaits, an argument of type `Meanwhile` is what the rest of the program does
-- until it goes on. `built` is what `Resource::build` comes to for the call at hand.
pub mod Steps
pub mod Rejection
pub mod Settled
pub mod Snapshot
pub mod Lookups
pub mod Construction
pub mod Cancelled
pub mod Specification
mod Create
mod Supervise
mod Acquire
mod Discover
unfoldable pub use Create.*
unfoldable pub use Supervise.*
unfoldable pub use Acquire.*
unfoldable pub use Discover.*
