-- ===== src/Supervision/Creation.antt =====
-- src/context.rs, `create` among the supervisors: a registration keeps the invariant.
use resourcery.Base.{
  ℕ, suc, ◌+◌, ◌%◌, ◌^◌, ◌<◌, ◌≡◌, false, Option, [], arith, ◌==◌, ==_refl, if◌then◌else◌, update,
}
use resourcery.Lifecycle
use resourcery.World.{Program, Cleanup, World, terminated}
use resourcery.Domain.{control, is_accepting, insert_task}
use resourcery.Context.{establish}
use resourcery.Context.Settled.{outcomes}
use resourcery.Supervision.{Duty, absent, registered}
use resourcery.Supervision.Tasks.{find-insert_task}
use resourcery.Supervision.Invariant.{Inv}

module _ {P : Program} where
  module _ (w : World P) (t : ℕ) (f : Option (Cleanup P)) (i : P.Interface) where
    abbrev pub built : World P
    built = (establish w t f i).0

    -- What `create` does to the supervisor of the domain.
    pub record Registered : Type 0 where
      pub phase : built.phase ≡ w.phase
      pub tasks :
          built.tasks
          ≡ (if is_accepting w then insert_task w.next_task w.next_generation w.tasks else w.tasks)
      pub next_task :
          built.next_task ≡ (if is_accepting w then (w.next_task + 1) % 2 ^ 64 else w.next_task)
      next_generation : built.next_generation ≡ suc w.next_generation
      said : (g : ℕ) → outcomes g built.calls ≡ outcomes g w.calls
      controls : (g : ℕ) → (w.next_generation == g) ≡ false → control built g ≡ control w g

    pub establish-Registered : Registered
    unfolding establish is_accepting Lifecycle.new
    establish-Registered = record {
      phase = ground (arith, ==_refl w.next_generation);
      tasks = ground (arith, ==_refl w.next_generation);
      next_task = ground (arith, ==_refl w.next_generation);
      next_generation = ground (arith, ==_refl w.next_generation);
      said = λ g. ground (arith, ==_refl w.next_generation);
      controls = λ g e. ground (arith, ==_refl w.next_generation);
    }

  module _ {k : ℕ} {w : World P} {duties : ℕ → Duty P.Error} (v : Inv k w duties) where
    creates-quiet :
        (t : ℕ) (f : Option (Cleanup P)) (i : P.Interface)
        → (establish w t f i).0.phase ≡ terminated
        → (establish w t f i).0.tasks ≡ []
    unfolding is_accepting
    creates-quiet t f i e =
        let r = establish-Registered w t f i in ground (arith, r.tasks, r.phase, v.quiet)

    pub creates-Inv :
        (t : ℕ) (f : Option (Cleanup P)) (i : P.Interface)
        → suc (suc k) < 2 ^ 64
        → Inv (suc k) (establish w t f i).0 (
            update duties w.next_generation
              (if is_accepting w then registered w.next_task else absent))
    creates-Inv t f i bound =
        let r = establish-Registered w t f i in
        record {
          few = ground (arith, v.few, r.next_task);
          quiet = creates-quiet t f i;
          fresh = λ h l. ground (arith, v.fresh h, r.next_generation);
          known = λ id g e. ground (
            arith,
            r.tasks,
            r.next_task,
            v.known id g,
            v.few,
            find-insert_task w.next_task w.next_generation id w.tasks,
          );
          watched = λ id g e. ground (
            arith,
            r.tasks,
            v.watched id g,
            v.fresh g,
            find-insert_task w.next_task w.next_generation id w.tasks,
          );
          listed = λ id g e. ground (
            arith,
            r.tasks,
            v.listed id g,
            v.known id g,
            find-insert_task w.next_task w.next_generation id w.tasks,
          );
          reported = λ g. ground (arith, r.said g, v.reported g, v.fresh g);
          over = λ g o e. ground (arith, r.controls g, v.over g o);
        }
