-- ===== src/Tests/Scenarios/Lifetimes.antt =====
-- src/context.rs, its tests of leases, outcomes and shutdown.
use resourcery.Base.{ℕ, Bool, true, false, not, ◌&&◌, none, some, [], ◌∷◌, ◌==◌, length}
use resourcery.World.{World, new_world}
use resourcery.Domain.{cancel, shutdown_domain, terminate}
use resourcery.Reference.{strong, clone_ref, drop_ref, upgrade}
use resourcery.Registry.{slot}
use resourcery.Context.{
  spec, spawn, get_or_spawn, get, all, supervise, returned_ok, join_panic, join_cancelled, literal,
}
use resourcery.Tests.Samples.{sample, idle, calm}
use resourcery.Tests.Scenarios.Trials.{
  test_resource, panic_resource, stuck_resource, fast_resource, cancellations, await_outcome,
  is_completed, is_aborted, is_panicked, acquired, is_shutting_down, settled, is_none, none_such,
  active_tasks,
}

-- `cx.get_or_spawn::<TestResource>` of a key that nobody constructs.
abbrev pub get_test : World sample → ℕ → World sample × ℕ
get_test w key =
    let (w', r) = settled w (get_or_spawn test_resource w key [] calm (spec 0)) in (w', acquired r)

unfoldable pub completion_does_not_hold_a_lease_and_is_multicast : Bool
unfolding get_or_spawn drop_ref supervise await_outcome new_world
completion_does_not_hold_a_lease_and_is_multicast =
    let (w, g) = get_test new_world 1 in
    let w' = supervise (drop_ref w g) g returned_ok in
    is_completed (await_outcome w' g)
    && is_completed (await_outcome w' g)
    && cancellations w' g == 1

unfoldable pub panic_is_a_stable_terminal_outcome : Bool
unfolding spawn supervise await_outcome new_world
panic_is_a_stable_terminal_outcome =
    let (w, r) = spawn panic_resource new_world tt calm (spec 0) in
    let w' = supervise w (acquired r) (join_panic (literal "managed boom")) in
    is_panicked (await_outcome w' (acquired r)) && is_panicked (await_outcome w' (acquired r))

-- The callers one after another: how they interleave is the matter of System.
unfoldable pub all_acquire : ℕ → World sample → ℕ → Bool
unfolding get_or_spawn
all_acquire Prim.Native.Nat.zero w g = true
all_acquire (Prim.Native.Nat.suc n) w g =
    let (w', h) = get_test w 7 in let rest = all_acquire n w' g in g == h && rest

unfoldable pub concurrent_canonical_acquisition_builds_once : ℕ → Bool
unfolding get_or_spawn all_acquire new_world
concurrent_canonical_acquisition_builds_once callers =
    let (w, g) = get_test new_world 7 in all_acquire callers w g

unfoldable pub terminal_generation_is_removed_and_old_cleanup_is_generation_safe : Bool
unfolding get_or_spawn drop_ref supervise get shutdown_domain slot new_world
terminal_generation_is_removed_and_old_cleanup_is_generation_safe =
    let (w, old) = get_test new_world 9 in
    let (w', replacement) = get_test (drop_ref w old) 9 in
    let w'' = supervise w' old returned_ok in
    let (w3, found) = get w'' 1 9 in
    let again : ℕ = elim found [ none ↦ none_such | some g ↦ g ] in
    let w4 = drop_ref (drop_ref w3 again) replacement in
    elim (shutdown_domain w4 (idle ∷ (λ u. supervise u replacement returned_ok) ∷ idle ∷ [])) [
      | none ↦ false
      | some u ↦
          not (old == replacement)
          && again == replacement
          && is_none (slot u 1 9)
          && active_tasks u == 0
    ]

-- The loop, from any world: `rounds` keys, each created, dropped and awaited.
unfoldable pub create_and_drop : ℕ → World sample → World sample
unfolding get_or_spawn drop_ref supervise
create_and_drop Prim.Native.Nat.zero w = w
create_and_drop (Prim.Native.Nat.suc n) w =
    let (w', g) = get_test (create_and_drop n w) n in supervise (drop_ref w' g) g returned_ok

unfoldable pub repeated_create_and_drop_does_not_grow_registry_or_supervisor : ℕ → Bool
unfolding create_and_drop new_world
repeated_create_and_drop_does_not_grow_registry_or_supervisor rounds =
    let w = create_and_drop rounds new_world in
    length (w.registries 1).slot_of == 0 && active_tasks w == 0

unfoldable pub shutdown_is_awaitable_idempotent_and_rejects_acquisition : Bool
unfolding get_or_spawn shutdown_domain supervise await_outcome new_world
shutdown_is_awaitable_idempotent_and_rejects_acquisition =
    let (w, g) = get_test new_world 11 in
    elim (shutdown_domain w (idle ∷ (λ u. supervise u g returned_ok) ∷ idle ∷ [])) [
      | none ↦ false
      | some u ↦
          (let (u', r) = settled u (get_or_spawn test_resource u 12 [] calm (spec 0)) in
            is_completed (await_outcome u g)
            && is_shutting_down r
            && not (is_none (shutdown_domain u' (idle ∷ []))))
    ]

unfoldable pub forced_termination_publishes_aborted_and_quiesces : Bool
unfolding spawn terminate supervise await_outcome new_world
forced_termination_publishes_aborted_and_quiesces =
    let (w, r) = spawn stuck_resource new_world tt calm (spec 0) in
    elim (terminate w idle (idle ∷ (λ u. supervise u (acquired r) join_cancelled) ∷ idle ∷ [])) [
      | none ↦ false
      | some u ↦ is_aborted (await_outcome u (acquired r)) && active_tasks u == 0
    ]

unfoldable pub strong_references_clone_after_completion_and_during_shutdown : Bool
unfolding spawn supervise await_outcome clone_ref drop_ref upgrade cancel terminate new_world
strong_references_clone_after_completion_and_during_shutdown =
    let (w, r) = spawn fast_resource new_world tt calm (spec 0) in
    let g = acquired r in
    let w' = supervise w g returned_ok in
    let w'' = drop_ref (drop_ref (clone_ref w' g) g) g in
    let (w3, r') = spawn stuck_resource w'' tt calm (spec 0) in
    let h = acquired r' in
    let w4 = cancel w3 in
    let w5 = clone_ref w4 h in
    let (w6, upgraded) = upgrade w5 h in
    let w7 = drop_ref (drop_ref w6 h) h in
    is_completed (await_outcome w' g)
    && strong w3 h == 1
    && strong w5 h == 2
    && not upgraded
    && strong w6 h == 2
    && not (is_none (terminate w7 idle (idle ∷ (λ u. supervise u h join_cancelled) ∷ idle ∷ [])))

unfoldable pub all_includes_unique_generations_without_retaining_them : Bool
unfolding spawn all drop_ref terminate supervise new_world
all_includes_unique_generations_without_retaining_them =
    let (w, r) = spawn stuck_resource new_world tt calm (spec 0) in
    let (w', r') = spawn stuck_resource w tt calm (spec 0) in
    let (w'', found) = all w' 5 in
    let w3 = drop_ref (drop_ref w'' (acquired r)) (acquired r') in
    let w4 = drop_ref (drop_ref w3 (acquired r)) (acquired r') in
    let ends =
      idle
      ∷ (λ u. supervise u (acquired r) join_cancelled)
      ∷ (λ u. supervise u (acquired r') join_cancelled)
      ∷ idle
      ∷ [] in
    elim (terminate w4 idle ends) [
      | none ↦ false
      | some u ↦ length found == 2 && length (all u 5).1 == 0
    ]
