-- ===== src/Tests.antt =====
-- Concrete inputs: the theorems at inputs that meet their hypotheses, and tests by evaluation.
mod Maps
mod Samples
mod Races
mod Supervisors
mod Dependencies
mod Signals
mod Scenarios
mod Witnesses
mod Reached
