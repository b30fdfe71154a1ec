-- ===== src/Tests/Races.antt =====
-- A race of callers for one identity.
use resourcery.Base.{ℕ, ◌≤◌, ◌≡◌, arith, ==_iff, ◌∷◌, refl, some, if◌then◌else◌, update}
use resourcery.Lifecycle
use resourcery.Domain.{is_accepting}
use resourcery.Context.{establish, cleanup_of}
use resourcery.World.{notify_slot}
use resourcery.Context.Snapshot.{acquirable}
use resourcery.System.{
  State, Stage, idle, building, created, waiting, wake, Reach, begin, after, enters, establishes,
  waits, abandons, vacates, tells,
}
use resourcery.System.Waiting.{owes}
use resourcery.System.Resumption.{turns}
use resourcery.System.{Run, stop, go}
use resourcery.Registry.{remove_if_same}
use resourcery.System.Exclusion.{generation, Occupies}
use resourcery.Registry.Cases.{opened}
use resourcery.Tests.Samples.{sample, fresh, runs, seventh}

-- The caller 4 enters for key 7.
abbrev pub entered : State sample
entered = record { world = opened fresh 0 7; stages = update (λ i. idle) 4 (building seventh) }

-- What it builds is registered.
abbrev pub made : State sample
made = record {
  world = (establish entered.world 0 (some seventh) 5).0;
  stages =
      update entered.stages 4
        (if is_accepting entered.world then created seventh 0 else Stage.failing seventh);
}

pub made_reached : Reach 2 made
unfolding runs
made_reached =
    after (after begin (enters 4 0 7 refl refl refl refl)) (establishes 4 seventh 5 refl refl)

pub made_Occupies : Occupies made 0 7 (generation 0)
unfolding runs acquirable establish Lifecycle.new
made_Occupies = (refl, (0, 1, refl))

-- While the caller 4 builds, the caller 9 waits.
abbrev pub suspended : State sample
suspended = record { world = entered.world; stages = update entered.stages 9 (waiting 0) }

pub suspended_reached : Reach 2 suspended
unfolding runs
suspended_reached =
    after (after begin (enters 4 0 7 refl refl refl refl)) (waits 9 0 7 0 1 refl refl refl refl)

-- The build panics: the guard is dropped, the waiter is told, and the caller 4 enters once more.
abbrev pub given_up : State sample
given_up = record {
  world = suspended.world;
  stages = update suspended.stages 4 (Stage.failing seventh);
}

abbrev pub vacated : State sample
vacated = record {
  world = remove_if_same suspended.world 0 7 0 1;
  stages = update given_up.stages 4 (Stage.telling 0);
}

abbrev pub told : State sample
told = record {
  world = record vacated.world { calls = notify_slot 0 ∷ vacated.world.calls };
  stages = λ j. wake 0 (update vacated.stages 4 idle j);
}

abbrev pub again : State sample
again = record {
  world = opened told.world 0 7;
  stages = update told.stages 4 (building (cleanup_of 0 7 1 1));
}

unfoldable pub panicked : Run suspended again
unfolding runs remove_if_same
panicked = go (abandons 4 seventh refl refl) (
    go (vacates 4 seventh refl refl)
      (go (tells 4 0 refl refl) (go (enters 4 0 7 refl refl refl refl) stop)))

pub panicked_fair : (j : ℕ) → owes (suspended.stages j) ≡ some 0 → 4 ≤ turns j panicked
unfolding panicked
panicked_fair j o = ground (arith, ==_iff 4 j)
