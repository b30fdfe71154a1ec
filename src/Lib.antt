-- ===== src/Lib.antt =====
-- resourcery: applications built from typed, long-lived resources.
--
-- A resource has an interface, a task and a placement. A domain hosts the generations of its
-- resources: each was made by one `build`, is kept alive by strong references (leases), and is
-- cancelled when the last of these ends or the domain shuts down. A canonical resource has one
-- identity for each type and key, which at most one generation holds at a time.
--
-- The files and the code that each is about:
--   Base: names of the libraries, Boolean tests, lists, and cells of a heap.
--   Lifecycle: src/lifecycle.rs, the phase of one generation (`Control`). Lifecycle/CancelLoop has
--     the loop of `cancel` among other threads, Lifecycle/History sequences of operations.
--   Placement: src/placement.rs, from a creation input to a key.
--   DashMap, Tokens: the map of the package `dashmap`, and the cancellation tokens of `tokio_util`,
--     as interfaces.
--   World: the shared state. It has the fields of `Domain` and `Supervisor` (src/domain.rs), the
--     registries, and heaps for what the source shares through `Arc`: the slots (`RegistrySlot`) and
--     the generations (`Control` with `Entry` and its strong count).
--   Domain: src/domain.rs, `Domain`: `register`, `task_finished`, `try_acquire`, `cancel`,
--     `shutdown` (here `shutdown_domain`) and `terminate`. Domain/Registries has `registry`, with the
--     registries of all types in one map of `Any`.
--   Registry: src/domain.rs, `Registry`: `claim` with the branches of `claim_inner`,
--     `remove_if_same`, and the list of live entries.
--   Reference: src/reference.rs: leases (`clone_ref`, `drop_ref`), the upgrade of weak references,
--     and `ResourceCompletion::wait`. Reference/Handles has the handles themselves.
--   Context: src/context.rs. Create has `create` and `create_and_start`; Supervise the task that
--     `create` leaves behind; Acquire the canonical acquisition, its guard and `spawn`; Discover
--     `get`, `status` and `all`; Cancelled `cancelled`; Specification
--     `ResourceSpec` (src/resource.rs). The other children hold proofs.
--   Runtime: src/runtime.rs, `new`, `run`, `cancel`, `shutdown` and `terminate`.
--     Runtime/Texts has the texts of the errors (src/error.rs).
--   Moves: the atomic actions of all these files on the shared state, as a relation; an invariant of
--     it; and, in Moves/Operations, the operations as chains of them.
--   System: callers that race for canonical identities, each at a point of `acquire_canonical` or
--     `try_acquire_canonical` (src/context.rs), with the supervisors and the rest of the program, in
--     any order; an invariant of it, and what follows for identities.
--   Ownership: the dependencies of the README: references that interfaces retain (src/reference.rs,
--     `Entry` with its `Drop`), and what ends when the last reference to a generation does.
--   Supervision: the supervising tasks that `create` spawns (src/context.rs), each at a point of its
--     future, with the tasks of the domain (src/domain.rs) and all other threads, in any order.
--   Tests: a map and tokens that meet the laws of DashMap and Tokens, a small application, and the
--     theorems at it. Tests/Scenarios has the tests of src/context.rs and src/domain.rs, each as a
--     function that does in the model what the test does and is evaluated. Tasks that a test runs at
--     once follow one another there; System is about the order of their actions.
--
-- How the state corresponds to the code. An operation takes the world and returns the world after
-- it. A critical section of the supervisor's lock, or of a map entry with its slot's lock, is one
-- step, and so is an atomic instruction, with these exceptions, where several are one step:
-- `Control::cancel`, with the cancellation of its token (Lifecycle/CancelLoop has its loop); in
-- `install`, the test of the domain with the write to the slot (in System the write comes at any
-- time after the registration); and, in System and Supervision, what `create` does from the
-- allocation to `insert_live` (in Moves and Ownership each of these is one).
--
-- Where the code awaits, the operation takes a function (`Meanwhile`) for what the rest of the
-- program does until it goes on; a canonical construction takes two (`Pauses`), for the build and
-- for the time between the registration and the second test of the domain. Where it awaits in a
-- loop, it takes a list of these, and its result says when the list was too short (`suspended`,
-- `none`). The loop of `shutdown` takes one for each action of its future, and is woken only by a
-- call of `notify_waiters` that is recorded after its `Notified` was made, as `Notify` documents; in
-- the loop of an acquisition an element stands for all that happens until the listener is notified,
-- and System is about whether it is. A drop at the end of a scope is written where the source's
-- scopes end.
--
-- Numbers. Task ids and generation numbers of slots are `u64`: their increments are taken modulo
-- 2 ^ 64; in System and Supervision a bound on the number of steps keeps them from returning.
-- Strong counts and addresses are not bounded.
--
-- Other packages. A `DashMap` is a parameter with its documented laws, all of them met by the map of
-- Tests/Maps, and so are the tokens for which `cancelled` waits, in Tests/Signals. The calls of
-- `CancellationToken`, `AbortHandle`, `Notify`, `Event` and of the sending ends of channels are
-- recorded in the order in which the code makes them; what a `watch` channel shows to its receiver
-- is a list of observations. What `build` and a task do is a parameter. A registry is read as empty
-- before its first use. The keys, interfaces and errors of all resource types are three types of
-- the application, where the source erases types with `Any`.
--
-- Not modelled: the feature `tracing`; what a boxed future of a task does, which is a parameter; the
-- runtime of `tokio` and the order in which it schedules tasks; and the weak memory model: atomic
-- instructions are taken in one order.
pub mod Base
pub mod Lifecycle
pub mod DashMap
pub mod Placement
pub mod World
pub mod Domain
pub mod Reference
pub mod Registry
pub mod Context
pub mod Runtime
pub mod Moves
pub mod Ownership
pub mod Supervision
pub mod System
pub mod Tokens
pub mod Tests
