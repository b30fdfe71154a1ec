-- ===== src/Tests/Scenarios/Runs.antt =====
-- The scenarios, evaluated. The tests run a thousand callers and a hundred rounds; here they are few.
use resourcery.Base.{◌≡◌, refl, true}
use resourcery.Tests.Samples.{runs}
use resourcery.Tests.Scenarios.Lifetimes.{
  completion_does_not_hold_a_lease_and_is_multicast, panic_is_a_stable_terminal_outcome,
  concurrent_canonical_acquisition_builds_once,
  terminal_generation_is_removed_and_old_cleanup_is_generation_safe,
  repeated_create_and_drop_does_not_grow_registry_or_supervisor,
  shutdown_is_awaitable_idempotent_and_rejects_acquisition,
  forced_termination_publishes_aborted_and_quiesces,
  strong_references_clone_after_completion_and_during_shutdown,
  all_includes_unique_generations_without_retaining_them,
}
use resourcery.Tests.Scenarios.Constructions.{
  status_reports_explicit_starting_state, construction_panic_restores_absent_slot,
  cancelled_async_construction_restores_absent_slot,
  canonical_construction_racing_shutdown_cannot_activate,
  same_key_waiters_do_not_block_runtime_workers, cleanup_panic_still_publishes_and_quiesces,
}
use resourcery.Tests.Scenarios.Registries.{
  cleanup_cannot_detach_a_slot_while_it_is_being_claimed,
  loom_claim_and_cleanup_have_one_registry_linearization_point,
}

completion_does_not_hold_a_lease_and_is_multicast_holds :
    completion_does_not_hold_a_lease_and_is_multicast ≡ true
unfolding runs completion_does_not_hold_a_lease_and_is_multicast
completion_does_not_hold_a_lease_and_is_multicast_holds = refl

panic_is_a_stable_terminal_outcome_holds : panic_is_a_stable_terminal_outcome ≡ true
unfolding runs panic_is_a_stable_terminal_outcome
panic_is_a_stable_terminal_outcome_holds = refl

concurrent_canonical_acquisition_builds_once_holds :
    concurrent_canonical_acquisition_builds_once 5 ≡ true
unfolding runs concurrent_canonical_acquisition_builds_once
concurrent_canonical_acquisition_builds_once_holds = refl

terminal_generation_is_removed_and_old_cleanup_is_generation_safe_holds :
    terminal_generation_is_removed_and_old_cleanup_is_generation_safe ≡ true
unfolding runs terminal_generation_is_removed_and_old_cleanup_is_generation_safe
terminal_generation_is_removed_and_old_cleanup_is_generation_safe_holds = refl

repeated_create_and_drop_does_not_grow_registry_or_supervisor_holds :
    repeated_create_and_drop_does_not_grow_registry_or_supervisor 3 ≡ true
unfolding runs repeated_create_and_drop_does_not_grow_registry_or_supervisor
repeated_create_and_drop_does_not_grow_registry_or_supervisor_holds = refl

shutdown_is_awaitable_idempotent_and_rejects_acquisition_holds :
    shutdown_is_awaitable_idempotent_and_rejects_acquisition ≡ true
unfolding runs shutdown_is_awaitable_idempotent_and_rejects_acquisition
shutdown_is_awaitable_idempotent_and_rejects_acquisition_holds = refl

forced_termination_publishes_aborted_and_quiesces_holds :
    forced_termination_publishes_aborted_and_quiesces ≡ true
unfolding runs forced_termination_publishes_aborted_and_quiesces
forced_termination_publishes_aborted_and_quiesces_holds = refl

strong_references_clone_after_completion_and_during_shutdown_holds :
    strong_references_clone_after_completion_and_during_shutdown ≡ true
unfolding runs strong_references_clone_after_completion_and_during_shutdown
strong_references_clone_after_completion_and_during_shutdown_holds = refl

all_includes_unique_generations_without_retaining_them_holds :
    all_includes_unique_generations_without_retaining_them ≡ true
unfolding runs all_includes_unique_generations_without_retaining_them
all_includes_unique_generations_without_retaining_them_holds = refl

status_reports_explicit_starting_state_holds : status_reports_explicit_starting_state ≡ true
unfolding runs status_reports_explicit_starting_state
status_reports_explicit_starting_state_holds = refl

construction_panic_restores_absent_slot_holds : construction_panic_restores_absent_slot ≡ true
unfolding runs construction_panic_restores_absent_slot
construction_panic_restores_absent_slot_holds = refl

cancelled_async_construction_restores_absent_slot_holds :
    cancelled_async_construction_restores_absent_slot ≡ true
unfolding runs cancelled_async_construction_restores_absent_slot
cancelled_async_construction_restores_absent_slot_holds = refl

canonical_construction_racing_shutdown_cannot_activate_holds :
    canonical_construction_racing_shutdown_cannot_activate ≡ true
unfolding runs canonical_construction_racing_shutdown_cannot_activate
canonical_construction_racing_shutdown_cannot_activate_holds = refl

same_key_waiters_do_not_block_runtime_workers_holds :
    same_key_waiters_do_not_block_runtime_workers 4 ≡ true
unfolding runs same_key_waiters_do_not_block_runtime_workers
same_key_waiters_do_not_block_runtime_workers_holds = refl

cleanup_panic_still_publishes_and_quiesces_holds : cleanup_panic_still_publishes_and_quiesces ≡ true
unfolding runs cleanup_panic_still_publishes_and_quiesces
cleanup_panic_still_publishes_and_quiesces_holds = refl

cleanup_cannot_detach_a_slot_while_it_is_being_claimed_holds :
    cleanup_cannot_detach_a_slot_while_it_is_being_claimed 9 ≡ true
unfolding runs cleanup_cannot_detach_a_slot_while_it_is_being_claimed
cleanup_cannot_detach_a_slot_while_it_is_being_claimed_holds = refl

loom_claim_and_cleanup_have_one_registry_linearization_point_holds :
    loom_claim_and_cleanup_have_one_registry_linearization_point ≡ true
unfolding runs loom_claim_and_cleanup_have_one_registry_linearization_point
loom_claim_and_cleanup_have_one_registry_linearization_point_holds = refl
