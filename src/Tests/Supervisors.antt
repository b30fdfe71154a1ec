-- ===== src/Tests/Supervisors.antt =====
-- The life of one supervisor, with the shutdown of the domain in between.
use resourcery.Base.{ℕ, false, arith, ◌≡◌, refl, none, ◌∷◌, update, if◌then◌else◌}
use resourcery.Lifecycle
use resourcery.World.{completed, publish, terminated}
use resourcery.Domain.{is_accepting, task_finished, cancel_locked}
use resourcery.Registry.{remove_live}
use resourcery.Context.{establish, finish_control, run_cleanup, returned_ok, outcome_of}
use resourcery.Moves.{shuts}
use resourcery.Supervision.Invariant.{task_id}
use resourcery.Supervision.{
  State, absent, registered, watching, finished, cleaned, published, unlisted, retired, creates,
  spawns, ends, cleans, publishes, delists, retires, elsewhere, Reach, begin, after, Run, stop, go,
}
use resourcery.Supervision.Histories.{task_ended}
use resourcery.Tests.Samples.{sample, fresh, runs}

abbrev pub entered : State sample
entered = record {
  world = (establish fresh 0 none 5).0;
  duties = update (λ g. absent) 0 (if is_accepting fresh then registered 0 else absent);
}

abbrev pub made : State sample
made = record { world = entered.world; duties = update entered.duties 0 (watching 0) }

abbrev pub ended : State sample
ended = record {
  world = finish_control made.world 0;
  duties = update made.duties 0 (finished 0 completed);
}

abbrev pub clean : State sample
clean = record {
  world = run_cleanup ended.world (ended.world.generations 0).on_finish;
  duties = update ended.duties 0 (cleaned 0 completed);
}

abbrev pub said : State sample
said = record {
  world = record clean.world { calls = publish 0 completed ∷ clean.world.calls };
  duties = update clean.duties 0 (published 0 completed);
}

abbrev pub gone : State sample
gone = record {
  world = remove_live said.world 0 0;
  duties = update said.duties 0 (unlisted 0 completed);
}

abbrev pub shut : State sample
shut = record { world = (cancel_locked gone.world).0; duties = gone.duties }

abbrev pub done : State sample
done = record {
  world = task_finished shut.world 0;
  duties = update shut.duties 0 (retired completed);
}

pub made_reached : Reach 2 made
unfolding runs
made_reached = after (after begin (creates 0 none 5 refl)) (spawns 0 0 refl refl)

pub done_reached : Reach 8 done
unfolding runs outcome_of
done_reached =
    after
      (after
        (after
          (after
            (after (after made_reached (ends 0 0 returned_ok refl refl))
              (cleans 0 0 completed refl refl))
            (publishes 0 0 completed refl refl))
          (delists 0 0 0 completed refl refl))
        (elsewhere (shuts refl) tt refl))
      (retires 0 0 completed refl refl)

-- What follows the end of the task.
pub rest_of_run : Run 5 (task_ended made 0 0 returned_ok) done
unfolding runs outcome_of
rest_of_run = go (cleans 0 0 completed refl refl) (
    go (publishes 0 0 completed refl refl) (
      go (delists 0 0 0 completed refl refl)
        (go (elsewhere (shuts refl) tt refl) (go (retires 0 0 completed refl refl) stop))))

pub whole_run : Run 6 made done
unfolding runs outcome_of
whole_run = go (ends 0 0 returned_ok refl refl) rest_of_run

pub done_phase : done.world.phase ≡ terminated
unfolding runs establish finish_control run_cleanup remove_live cancel_locked task_finished
    Lifecycle.new
done_phase = refl

pub done_idle : (g : ℕ) → task_id (done.duties g) ≡ none
done_idle g = ground arith

pub done_closed : is_accepting done.world ≡ false
unfolding runs establish finish_control run_cleanup remove_live cancel_locked task_finished
    Lifecycle.new
done_closed = refl
