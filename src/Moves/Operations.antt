-- ===== src/Moves/Operations.antt =====
-- The operations of the library as chains of the atomic actions, by the files that they are in.
mod Leases
mod Claims
mod Domains
mod Contexts
mod Acquisitions
mod Refinement
pub use Leases.*
pub use Claims.*
pub use Domains.*
pub use Contexts.*
pub use Acquisitions.*
pub use Refinement.*
