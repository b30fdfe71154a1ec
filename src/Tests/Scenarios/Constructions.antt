-- ===== src/Tests/Scenarios/Constructions.antt =====
-- src/context.rs, its tests of constructions that are observed, cancelled, or overtaken by a
-- shutdown. The barrier of `StartingResource` splits an acquisition in two: the claim, and what
-- follows once `build` goes on; what the test does between is what happens meanwhile.
use resourcery.Base.{ℕ, Bool, true, false, not, ◌&&◌, none, some, [], ◌∷◌, ◌==◌}
use resourcery.World.{World, Cleanup, new_world}
use resourcery.Domain.{cancel, shutdown_domain}
use resourcery.Registry.{claim}
use resourcery.Context.{
  Acquisition, ready, suspended, unreachable, spec, panics, try_get_or_spawn, get_or_spawn,
  create_and_start, finish_canonical_creation, drop_guard, cleanup_of, status, supervise,
  returned_ok, Pauses,
}
use resourcery.Tests.Samples.{sample, idle, calm}
use resourcery.Tests.Scenarios.Trials.{
  starting_resource, construction_panic, await_outcome, is_completed, acquired, is_shutting_down,
  is_construction_panicked, settled, is_none, is_absent, is_starting, is_leased, active_tasks,
}

-- A construction of `StartingResource` that has come to its barrier.
unfoldable pub at_barrier : World sample
unfolding claim new_world
at_barrier = (claim new_world 3 0 false).0

abbrev pub begun : Cleanup sample
begun = cleanup_of 3 0 0 1

unfoldable pub status_reports_explicit_starting_state : Bool
unfolding at_barrier status try_get_or_spawn new_world
status_reports_explicit_starting_state =
    let (w, seen) = status at_barrier 3 0 in
    let others : Pauses sample = record { building = λ u. (status u 3 0).0; registered = idle } in
    let (w', r) = try_get_or_spawn starting_resource new_world tt others (spec 0) in
    is_starting seen && is_leased (status w' 3 0).1

unfoldable pub construction_panic_restores_absent_slot : Bool
unfolding get_or_spawn status new_world
construction_panic_restores_absent_slot =
    let (w, r) = settled new_world (get_or_spawn construction_panic new_world tt [] calm panics) in
    is_construction_panicked r && is_absent (status w 4 0).1

-- `abort` drops the future of the construction, and with it the guard.
unfoldable pub cancelled_async_construction_restores_absent_slot : Bool
unfolding at_barrier drop_guard get_or_spawn status
cancelled_async_construction_restores_absent_slot =
    let w = drop_guard at_barrier (record { target = begun; armed = true }) in
    let (w', r) = settled w (get_or_spawn starting_resource w tt [] calm (spec 0)) in
    is_starting (status at_barrier 3 0).1
    && is_absent (status w 3 0).1
    && is_leased (status w' 3 0).1

unfoldable pub canonical_construction_racing_shutdown_cannot_activate : Bool
unfolding try_get_or_spawn cancel status shutdown_domain supervise new_world
canonical_construction_racing_shutdown_cannot_activate =
    let others : Pauses sample = record { building = cancel; registered = idle } in
    let (w, r) = try_get_or_spawn starting_resource new_world tt others (spec 0) in
    is_shutting_down r
    && is_absent (status w 3 0).1
    && not (is_none (shutdown_domain w (idle ∷ (λ u. supervise u 0 returned_ok) ∷ idle ∷ [])))

abbrev pub is_suspended : Acquisition sample → Bool
is_suspended (suspended w) = true
is_suspended (ready w r) = false
is_suspended unreachable = false

-- Waiters, one after another, once the owner is done.
unfoldable pub all_resume : ℕ → World sample → ℕ → Bool
unfolding get_or_spawn
all_resume Prim.Native.Nat.zero w g = true
all_resume (Prim.Native.Nat.suc n) w g =
    let (w', r) = settled w (get_or_spawn starting_resource w tt [] calm (spec 0)) in
    let rest = all_resume n w' g in acquired r == g && rest

-- A waiter whose owner is at the barrier is suspended: no worker is blocked. The test's heartbeat
-- is the runtime's.
unfoldable pub same_key_waiters_do_not_block_runtime_workers : ℕ → Bool
unfolding at_barrier get_or_spawn finish_canonical_creation all_resume
same_key_waiters_do_not_block_runtime_workers waiters =
    let (w, r) = finish_canonical_creation at_barrier begun calm (spec 0) in
    is_suspended (get_or_spawn starting_resource at_barrier tt [] calm (spec 0))
    && all_resume waiters w (acquired r)

-- A closure that panics at once does nothing else: the supervisor catches the panic.
unfoldable pub cleanup_panic_still_publishes_and_quiesces : Bool
unfolding create_and_start supervise await_outcome shutdown_domain new_world
cleanup_panic_still_publishes_and_quiesces =
    let (w, r) = create_and_start new_world 6 none idle (spec 0) in
    let w' = supervise w (acquired r) returned_ok in
    elim (shutdown_domain w' (idle ∷ [])) [
      | none ↦ false
      | some u ↦ is_completed (await_outcome w' (acquired r)) && active_tasks u == 0
    ]
