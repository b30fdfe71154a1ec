-- ===== src/Domain/Frame.antt =====
-- src/domain.rs: what `task_finished` and `cancel` do to the tasks, and what they leave alone.
use resourcery.Base.{ℕ, ◌≡◌, false, arith, ◌⊎◌, []}
use resourcery.World.{Program, World}
use resourcery.Domain.{is_accepting, task_finished, cancel_locked, remove_task, controls}

module _ {P : Program} (w : World P) where
  pub tasks-task_finished : (id : ℕ) → (task_finished w id).tasks ≡ remove_task id w.tasks
  unfolding task_finished
  tasks-task_finished id = ground arith

  pub next-task_finished : (id : ℕ) → (task_finished w id).next_generation ≡ w.next_generation
  unfolding task_finished
  next-task_finished id = ground arith

  pub generations-task_finished : (id : ℕ) → (task_finished w id).generations ≡ w.generations
  unfolding task_finished
  generations-task_finished id = ground arith

  pub slots-task_finished : (id : ℕ) → (task_finished w id).slots ≡ w.slots
  unfolding task_finished
  slots-task_finished id = ground arith

  pub registries-task_finished : (id : ℕ) → (task_finished w id).registries ≡ w.registries
  unfolding task_finished
  registries-task_finished id = ground arith

  pub tasks-cancel_locked : (cancel_locked w).0.tasks ≡ w.tasks
  unfolding cancel_locked
  tasks-cancel_locked = ground arith

  pub next-cancel_locked : (cancel_locked w).0.next_generation ≡ w.next_generation
  unfolding cancel_locked
  next-cancel_locked = ground arith

  pub generations-cancel_locked : (cancel_locked w).0.generations ≡ w.generations
  unfolding cancel_locked
  generations-cancel_locked = ground arith

  pub cancel_locked-rejects : is_accepting (cancel_locked w).0 ≡ false
  unfolding cancel_locked is_accepting
  cancel_locked-rejects = ground arith

  pub controls-cancel_locked : ((cancel_locked w).1 ≡ []) ⊎ ((cancel_locked w).1 ≡ controls w)
  unfolding cancel_locked
  controls-cancel_locked = ground arith
