-- ===== src/Tests/Scenarios.antt =====
-- The tests of src/context.rs and src/domain.rs, as functions into Bool: each does in the model what
-- the test does, and says whether its assertions hold. Where a test lets other tasks of the runtime
-- run, the scenario says which step they take. `Runs` evaluates them.
pub mod Trials
pub mod Lifetimes
pub mod Constructions
pub mod Registries
mod Runs
