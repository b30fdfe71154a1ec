-- ===== src/Supervision/Duties.antt =====
-- src/context.rs: each step of a supervisor, and the creation of one, keeps the invariant.
use resourcery.Base.{ℕ, suc, ◌≡◌, refl, ap, [], ◌∷◌, arith, ==_refl, ==_iff, update}
use resourcery.Lifecycle
use resourcery.World.{Program, World, Outcome, terminated, publish}
use resourcery.Domain.{remove_task, task_finished}
use resourcery.Domain.Frame.{tasks-task_finished, next-task_finished, generations-task_finished}
use resourcery.Registry.{remove_live}
use resourcery.Context.{finish_control, run_cleanup}
use resourcery.Context.Settled.{outcomes}
use resourcery.Supervision.{
  Duty, registered, watching, finished, cleaned, published, unlisted, retired,
}
use resourcery.Supervision.Tasks.{find-remove_task}
use resourcery.Supervision.Invariant.{Inv}
use resourcery.Supervision.Steps.{Plain-Inv, run_cleanup-Plain, duty-Inv}

module _ {P : Program} where
  task_finished-quiet :
      (w : World P) (id : ℕ)
      → (w.phase ≡ terminated → w.tasks ≡ [])
      → (task_finished w id).phase ≡ terminated
      → (task_finished w id).tasks ≡ []
  unfolding task_finished remove_task
  task_finished-quiet w id q e = ground (arith, q)

  pub next_task-task_finished :
      (w : World P) (id : ℕ) → (task_finished w id).next_task ≡ w.next_task
  unfolding task_finished
  next_task-task_finished w id = ground arith

  said-task_finished :
      (w : World P) (id g : ℕ) → outcomes g (task_finished w id).calls ≡ outcomes g w.calls
  unfolding task_finished
  said-task_finished w id g = ground arith

  module _ {k : ℕ} {w : World P} {duties : ℕ → Duty P.Error} (v : Inv k w duties) where
    pub spawns-Inv :
        (g id : ℕ) → duties g ≡ registered id → Inv (suc k) w (update duties g (watching id))
    spawns-Inv g id d = duty-Inv v g id (watching id) (ground arith) refl (ground arith) (λ o e. cc)

    pub ends-Inv :
        (g id : ℕ) (outcome : Outcome P.Error)
        → duties g ≡ watching id
        → Inv (suc k) (finish_control w g) (update duties g (finished id outcome))
    unfolding finish_control Lifecycle.finish
    ends-Inv g id outcome d =
        duty-Inv
          (Plain-Inv (omega arith)
            (record {
              tasks = refl;
              next_task = refl;
              next_generation = refl;
              quiet = λ q. q;
              said = λ h. refl;
              over = λ h f. ground arith;
            })
            v)
          g id (finished id outcome) (ground arith) refl (ground arith)
          (λ o e. ground (arith, ==_refl g))

    pub cleans-Inv :
        (g id : ℕ) (outcome : Outcome P.Error)
        → duties g ≡ finished id outcome
        → Inv
            (suc k)
            (run_cleanup w (w.generations g).on_finish)
            (update duties g (cleaned id outcome))
    cleans-Inv g id outcome d =
        let p = run_cleanup-Plain w (w.generations g).on_finish in
        duty-Inv (Plain-Inv (omega arith) p v) g id (cleaned id outcome) (ground arith) refl
          (ground arith) (λ o e. p.over g (v.over g outcome (ground arith)))

    pub skips-Inv :
        (g id : ℕ) (outcome : Outcome P.Error)
        → duties g ≡ finished id outcome
        → Inv (suc k) w (update duties g (cleaned id outcome))
    skips-Inv g id outcome d =
        duty-Inv v g id (cleaned id outcome) (ground arith) refl (ground arith)
          (λ o e. v.over g outcome (ground arith))

    pub publishes-Inv :
        (g id : ℕ) (outcome : Outcome P.Error)
        → duties g ≡ cleaned id outcome
        → Inv
            (suc k)
            (record w { calls = publish g outcome ∷ w.calls })
            (update duties g (published id outcome))
    publishes-Inv g id outcome d = record {
      few = ground (arith, v.few);
      quiet = v.quiet;
      fresh = λ h l. ground (arith, v.fresh h l, ==_iff g h);
      known = v.known;
      watched = λ i h e. ground (arith, v.watched i h e, ==_iff g h);
      listed = λ i h e. ground (arith, v.listed i h, v.listed id g, ==_iff g h);
      reported = λ h. ground (arith, v.reported h, ==_iff g h, ==_iff h g);
      over = λ h o e. ground (arith, v.over h o, v.over g outcome, ==_iff g h);
    }

    pub delists-Inv :
        (g id t : ℕ) (outcome : Outcome P.Error)
        → duties g ≡ published id outcome
        → Inv (suc k) (remove_live w t id) (update duties g (unlisted id outcome))
    unfolding remove_live
    delists-Inv g id t outcome d =
        duty-Inv
          (Plain-Inv (omega arith)
            (record {
              tasks = refl;
              next_task = refl;
              next_generation = refl;
              quiet = λ q. q;
              said = λ h. refl;
              over = λ h f. f;
            })
            v)
          g id (unlisted id outcome) (ground arith) refl (ground arith)
          (λ o e. v.over g outcome (ground arith))

    pub retires-Inv :
        (g id : ℕ) (outcome : Outcome P.Error)
        → duties g ≡ unlisted id outcome
        → Inv (suc k) (task_finished w id) (update duties g (retired outcome))
    retires-Inv g id outcome d =
        let tasks = tasks-task_finished w id in
        record {
          few = ground (arith, v.few, next_task-task_finished w id);
          quiet = task_finished-quiet w id v.quiet;
          fresh = λ h l. ground (arith, v.fresh h, ==_iff g h, next-task_finished w id);
          known = λ i h e. ground (
            arith,
            tasks,
            next_task-task_finished w id,
            v.known i h,
            find-remove_task id i w.tasks,
          );
          watched = λ i h e.
              ground (
                arith,
                tasks,
                v.watched i h,
                find-remove_task id i w.tasks,
                ==_iff g h,
                ==_iff id i,
              );
          listed = λ i h e. ground (
            arith,
            tasks,
            v.listed i h,
            v.listed id g,
            find-remove_task id i w.tasks,
            ==_iff g h,
            ==_iff id i,
          );
          reported = λ h. ground (arith, said-task_finished w id h, v.reported h, ==_iff g h);
          over = λ h o e. ground (
            arith,
            ap (λ f. (f h).control.phase) (generations-task_finished w id),
            v.over h o,
            v.over g outcome,
            ==_iff g h,
          );
        }
