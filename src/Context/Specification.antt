-- ===== src/Context/Specification.antt =====
-- src/resource.rs, `ResourceSpec`, and src/context.rs, the context that a task is given.
use resourcery.Base.{ℕ, ◌≡◌, ap, Option, arith, ==_refl}
use resourcery.Lifecycle
use resourcery.Lifecycle.{Token, child}
use resourcery.World.{Program, World, Cleanup}
use resourcery.Domain.{control}
use resourcery.Context.Create.{Built, spec, allocate}

-- `ResourceContext`, in the domain of the world.
pub record ResourceContext : Type 0 where
  pub cancellation : Token

unfoldable pub for_resource : Token → ResourceContext
for_resource cancellation = record { cancellation = cancellation }

-- `ResourceSpec`; a boxed future is what the task does, of the type `Task`.
pub record ResourceSpec (Interface Task : Type 0) : Type 0 where
  pub interface : Interface
  pub task : ResourceContext → Task

module _ {Interface Task : Type 0} where
  unfoldable pub new : Interface → (ResourceContext → Task) → ResourceSpec Interface Task
  new interface task = record { interface = interface; task = task }

  -- What `create` reads of it before the task is started.
  abbrev pub built : ResourceSpec Interface Task → Built Interface
  built s = spec s.interface

module _ {P : Program} {Task : Type 0} where
  -- `(spec.task)(cx)`, in the task of the generation `g`.
  unfoldable pub run_task : World P → ℕ → ResourceSpec P.Interface Task → Task
  unfolding for_resource
  run_task w g s = s.task (for_resource (control w g).cancellation)

  -- The task of a new generation is given the token that is its own.
  pub run_task-allocate :
      (w : World P) (t : ℕ) (on_finish : Option (Cleanup P)) (s : ResourceSpec P.Interface Task)
      → run_task (allocate w t on_finish s.interface) w.next_generation s
        ≡ s.task (for_resource (child w.next_generation))
  unfolding run_task allocate Lifecycle.new
  run_task-allocate w t on_finish s =
      let g = w.next_generation in
      let own : (control (allocate w t on_finish s.interface) g).cancellation ≡ child g =
        ground (arith, ==_refl g) in
      ap (λ (c : Token). s.task (for_resource c)) own
