-- ===== src/Context/Supervise.antt =====
-- src/context.rs, the future that `create` spawns to supervise a task.
use Prim.Native.String.{String}
use resourcery.Base.{ℕ, Option, none, some, ◌∷◌}
use resourcery.Lifecycle
use resourcery.World.{
  Program, Cleanup, World, Outcome, completed, failed, panicked, aborted, publish,
}
use resourcery.Domain.{control, set_control, task_finished}
use resourcery.Registry.{remove_if_same, remove_live}

-- What a panic carries: a literal, a `String`, or a value of another type.
pub data Payload : Type 0 where
  literal : String → Payload
  owned : String → Payload
  other : Payload

-- What awaiting the task's handle gives: the task's own result, or a `JoinError`.
pub data Joined (E : Type 0) : Type 0 where
  returned_ok : Joined E
  returned_err : E → Joined E
  join_panic : Payload → Joined E
  join_cancelled : Joined E

unfoldable pub panic_message : Payload → String
panic_message (literal message) = message
panic_message (owned message) = message
panic_message other = "resource task panicked"

unfoldable pub outcome_of : {E : Type 0} → Joined E → Outcome E
unfolding panic_message
outcome_of returned_ok = completed
outcome_of (returned_err e) = failed e
outcome_of (join_panic payload) = panicked (panic_message payload)
outcome_of join_cancelled = aborted

module _ {P : Program} where
  open P use {Error}

  -- `control.finish()`.
  unfoldable pub finish_control : World P → ℕ → World P
  unfolding Lifecycle.finish
  finish_control w g = set_control w g (Lifecycle.finish (control w g))

  -- The closure `on_finish`, if there is one.
  unfoldable pub run_cleanup : World P → Option (Cleanup P) → World P
  unfolding remove_if_same
  run_cleanup w none = w
  run_cleanup w (some c) = remove_if_same w c.type_id c.key c.slot c.generation

  -- The end of the future: the entry leaves the list of live ones, and the `TaskFinalizer` is
  -- dropped. A supervisor exists only for a registered task.
  unfoldable pub retire : World P → ℕ → Option ℕ → World P
  unfolding remove_live task_finished
  retire w t none = w
  retire w t (some id) = task_finished (remove_live w t id) id

  unfoldable pub supervise : World P → ℕ → Joined Error → World P
  unfolding finish_control run_cleanup outcome_of retire
  supervise w g joined =
      let generation = w.generations g in
      let w' = run_cleanup (finish_control w g) generation.on_finish in
      retire (record w' { calls = publish g (outcome_of joined) ∷ w'.calls }) generation.type_id
        generation.task_id
