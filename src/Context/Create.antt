-- ===== src/Context/Create.antt =====
-- src/context.rs, `create` and `create_and_start`; src/error.rs, `AcquireError`.
use resourcery.Base.{ℕ, ◌+◌, Option, none, some, ◌∷◌, if◌then◌else◌, update}
use resourcery.Lifecycle
use resourcery.Lifecycle.{child}
use resourcery.World.{Program, Cleanup, Generation, World, abort, start}
use resourcery.Domain.{cancel_control, is_accepting, register, Meanwhile}
use resourcery.Reference.{drop_ref}
use resourcery.Registry.{insert_live}

pub data AcquireError : Type 0 where
  occupied shutting_down construction_panicked : AcquireError

pub data Result {ℓ} (A : Type ℓ) : Type ℓ where
  ok : A → Result A
  err : AcquireError → Result A

-- `Resource::build` panics, while its future is made or polled, or returns a specification.
pub data Built (Interface : Type 0) : Type 0 where
  panics : Built Interface
  spec : (interface : Interface) → Built Interface

module _ {P : Program} where
  open P use {Interface}

  abbrev pub set_generation : World P → ℕ → Generation P → World P
  set_generation w g generation = record w { generations = update w.generations g generation }

  -- The control, the entry with its one strong reference, the channels and the task.
  unfoldable pub allocate : World P → ℕ → Option (Cleanup P) → Interface → World P
  unfolding Lifecycle.new
  allocate w t on_finish interface =
      let g = w.next_generation in
      record (set_generation w g (record {
        control = Lifecycle.new (child g);
        interface = some interface;
        strong = 1;
        type_id = t;
        on_finish = on_finish;
        task_id = none;
      })) { next_generation = g + 1 }

  -- `create` after the build: a task that the domain does not register is aborted, its control
  -- cancelled and its entry dropped; one that it registers is listed as live.
  unfoldable pub establish : World P → ℕ → Option (Cleanup P) → Interface → World P × Result ℕ
  unfolding allocate register cancel_control drop_ref insert_live
  establish w t on_finish interface =
      let g = w.next_generation in
      let (w', registered) = register (allocate w t on_finish interface) g in
      elim registered [
        | none ↦ (
          drop_ref (cancel_control (record w' { calls = abort g ∷ w'.calls }) g) g,
          err shutting_down,
        )
        | some id ↦ (
          insert_live (set_generation w' g (record (w'.generations g) { task_id = some id })) t id
              g,
          ok g,
        )
      ]

  unfoldable pub create :
      World P → ℕ → Option (Cleanup P) → Meanwhile P → Built Interface → World P × Result ℕ
  unfolding is_accepting establish
  create w t on_finish others built =
      if is_accepting w
      then elim built [
        | panics ↦ (others w, err construction_panicked)
        | spec interface ↦ establish (others w) t on_finish interface
      ]
      else (w, err shutting_down)

  -- `start.send(())`.
  abbrev pub send_start : World P → ℕ → World P
  send_start w g = record w { calls = start g ∷ w.calls }

  unfoldable pub create_and_start :
      World P → ℕ → Option (Cleanup P) → Meanwhile P → Built Interface → World P × Result ℕ
  unfolding create
  create_and_start w t on_finish others built =
      let (w', created) = create w t on_finish others built in
      elim created [ ok g ↦ (send_start w' g, ok g) | err e ↦ (w', err e) ]
