-- ===== src/Tests/Reached.antt =====
-- The theorems on states that runs reach, at concrete runs.
use resourcery.Base.{ℕ, ◌⊎◌, ◌≤◌, ◌≡◌, refl, true, false, none, some, update, [], ◌∷◌, arith}
use resourcery.World.{World, Outcome}
use resourcery.Domain
use resourcery.Reference.{drop_ref}
use resourcery.Context.{
  Pauses, cleanup_of, establish, finish_canonical_creation, spec, returned_ok, spawn, get_or_spawn,
  get,
}
use resourcery.Context.Settled.{outcomes}
use resourcery.Moves.{Moves, here, chain}
use resourcery.Moves.Invariant.{Inv, Inv-new}
use resourcery.Moves.Forward.{Forward, Moves-Forward}
use resourcery.Moves.Preservation.{Moves-new-Inv}
use resourcery.Moves.Operations.{
  spawn-Moves, claim-Moves, finish_canonical_creation-Moves, operations-Act, Acts, Reached,
}
use resourcery.Tests.Samples.{sample, named, idle, calm, fresh, live, seventh, runs}
use resourcery.System.{State, Step, initial}
use resourcery.System.Owners.{owning, claim-Step}
use resourcery.Tests.Races.{made_reached, made_Occupies, entered, suspended}
use resourcery.System
use resourcery.System.{Stage, waits, go, stop}
use resourcery.System.Constructions.{Ends, Elapses, established, finish-Ends}
use resourcery.Registry.Cases.{opened}
use resourcery.Moves.{one, opens}
use resourcery.Moves.Operations.{establish-Moves}
use resourcery.System.Exclusion.{Occupant, generation, Reach-exclusive}
use resourcery.Tests.Races.{suspended_reached, panicked, panicked_fair}
use resourcery.Tests.Supervisors
use resourcery.Tests.Supervisors.{
  made_reached as watched_reached, done_reached, done_phase, whole_run, rest_of_run,
}
use resourcery.System.Resumption.{Resumes, Reach-Resumes}
use resourcery.Supervision.Quiescence.{Concluded, Reach-Concluded}
use resourcery.Supervision.Histories.{Reflects, Reach-bounds, Reach-outcomes}
use resourcery.Context.Cancelled.{Informed, cancelled, Moves-Informed, cancelled-drop_ref}
use resourcery.Tests.Signals.{tokens}
use resourcery.Lifecycle.{cancellable}
use resourcery.Reference.{strong}
use resourcery.Ownership
use resourcery.Ownership.{release}
use resourcery.Ownership.Invariant.{Owned}
use resourcery.Ownership.Steps.{Reach-Owned}
use resourcery.Ownership.Operations.{Owns}
use resourcery.Ownership.Refinement.{operations-Own}
use resourcery.Ownership.Release.{total, release-Ends}
use resourcery.Ownership.Reclamation.{release-Reclaims}
use resourcery.Domain.Registries.{Served, calls, begin, registry, registry-Served}
use resourcery.Domain.Registries
use resourcery.Tests.Maps.{assoc}
use resourcery.Tests.Dependencies.{wired, wired_reached, wired-IsRanked, two_generations}

fresh-Inv : Inv fresh
fresh-Inv = Inv-new

idle-Acts : Acts idle
idle-Acts w = here

live_reached : Moves fresh live
unfolding runs
live_reached = chain (claim-Moves fresh-Inv 0 7 false) (
    finish_canonical_creation-Moves (Moves-new-Inv (claim-Moves fresh-Inv 0 7 false)) seventh calm
      (spec 5) (idle-Acts, idle-Acts))

spawned : Moves fresh (spawn named fresh 7 calm (spec 5)).0
spawned = spawn-Moves named fresh-Inv 7 calm (spec 5) (idle-Acts, idle-Acts)

operations-Act_example : Reached live (get_or_spawn named live 7 (idle ∷ []) calm (spec 5))
unfolding runs
operations-Act_example =
    (operations-Act named (Moves-new-Inv live_reached) 7 calm idle (idle ∷ []) (spec 5) 0 0 7
      returned_ok (idle-Acts, idle-Acts) idle-Acts (idle-Acts, tt) (omega arith)).2

Moves-Forward_example : Forward fresh (spawn named fresh 7 calm (spec 5)).0
Moves-Forward_example = Moves-Forward spawned

Moves-new-Inv_example : Inv (spawn named fresh 7 calm (spec 5)).0
Moves-new-Inv_example = Moves-new-Inv spawned

Reach-exclusive_example : ◌≡◌ {A = Occupant} (generation 0) (generation 0)
Reach-exclusive_example =
    Reach-exclusive made_reached (omega arith) 0 7 (generation 0) (generation 0) made_Occupies
      made_Occupies

abbrev before : State sample
before = initial

claim-Step_example : Step before (owning before 4 0 7 false 0 1)
unfolding runs
claim-Step_example = claim-Step before 4 0 7 false 0 1 refl refl

Reach-Resumes_example : Resumes 9 0 panicked
Reach-Resumes_example =
    (Reach-Resumes suspended_reached panicked 9 0 (omega arith) refl panicked_fair).1

Reach-Concluded_example : Concluded Supervisors.done 0
Reach-Concluded_example = Reach-Concluded done_reached (omega arith) done_phase 0

Reach-bounds_example : Supervisors.made.world.next_task ≤ Supervisors.done.world.next_task
Reach-bounds_example = (Reach-bounds watched_reached whole_run (omega arith)).1

Reach-outcomes_example :
    (outcomes 0 Supervisors.done.world.calls ≡ [])
    ⊎ ((outcome : Outcome ℕ) × (outcomes 0 Supervisors.done.world.calls ≡ outcome ∷ [])
        × Reflects {E = ℕ} returned_ok outcome)
unfolding runs
Reach-outcomes_example =
    (Reach-outcomes 0 0 returned_ok watched_reached refl rest_of_run (omega arith)).1

abbrev leased_once : World sample
leased_once = (spawn named fresh 7 calm (spec 5)).0

Moves-Informed_example : Informed tokens leased_once 0
Moves-Informed_example = Moves-Informed tokens spawned 0

cancelled-drop_ref_example : cancelled tokens (drop_ref leased_once 0) 0 ≡ true
unfolding runs spawn
cancelled-drop_ref_example = cancelled-drop_ref tokens spawned 0 0 refl (λ e. cc)

Reach-Owned_example : Owned wired.world wired.retains (1 ∷ [])
Reach-Owned_example = Reach-Owned wired_reached

release-Ends_example :
    (u : World sample) × (release wired.retains (total wired.world) wired.world (1 ∷ []) ≡ some u)
    × Ownership.Reach (record wired { world = u; outside = [] })
release-Ends_example = release-Ends wired (1 ∷ []) [] wired_reached refl

release-Reclaims_example :
    (u : World sample) × (release wired.retains (total wired.world) wired.world (1 ∷ []) ≡ some u)
    × (strong u 0 ≡ 0)
    × (cancellable (Domain.control u 0).phase ≡ false)
release-Reclaims_example =
    release-Reclaims wired (λ g. g) wired_reached wired-IsRanked 0 two_generations

-- Two types have been used.
abbrev used : Registries.Registries sample assoc
used = (registry sample assoc (registry sample assoc (Registries.empty sample assoc) 3).0 5).0

registry-Served_example : Served sample assoc used 3
registry-Served_example = registry-Served sample assoc (calls 5 (calls 3 begin)) 3

operations-Own_example : Owns wired (get wired.world 1 7)
operations-Own_example =
    (operations-Own wired wired_reached 1 0 7 false none 8 (1 ∷ []) [] (λ k. refl)).0

-- While the caller 4 builds, the caller 9 waits for it; once its task is registered, the caller 8
-- enters for key 8.
abbrev enters_between : Pauses sample
enters_between = record { building = idle; registered = λ w. opened w 0 8 }

abbrev registered_one : State sample
registered_one = established suspended 4 seventh 5

abbrev tested_one : State sample
tested_one = record {
  world = opened registered_one.world 0 8;
  stages =
      update registered_one.stages 8
        (Stage.building (cleanup_of 0 8 registered_one.world.next_slot 1));
}

tested_one-Inv : Inv tested_one.world
unfolding runs establish
tested_one-Inv =
    let m =
      chain {w = fresh} (one (opens 0 7 refl refl))
        (establish-Moves (Moves-new-Inv (one (opens 0 7 refl refl))) 0 (some seventh) 5) in
    Moves-new-Inv (chain m (one (opens 0 8 refl refl)))

waits_while : Elapses entered 4 entered.world suspended
unfolding runs
waits_while = (go (waits 9 0 7 0 1 refl refl refl refl) stop, refl, refl)

enters_while : Elapses registered_one 4 tested_one.world tested_one
unfolding runs establish
enters_while = (go (System.enters 8 0 8 refl refl refl refl) stop, refl, refl)

finish-Ends_example :
    Ends entered 4 (finish_canonical_creation entered.world seventh enters_between (spec 5)).0
finish-Ends_example =
    (finish-Ends 4 seventh entered suspended tested_one enters_between 5 refl waits_while
      enters_while tested_one-Inv).1
