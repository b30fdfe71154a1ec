-- ===== src/Domain.antt =====
-- src/domain.rs, `Domain`: the phase of the domain, its supervisor and its shutdown.
--
-- What a function does while it holds the supervisor's lock is one definition (`…_locked`); the
-- whole function is composed of those and of what it does outside. `HashMap::values` visits the
-- tasks in some order: here, in that of the list.
pub mod Frame
pub mod Registries
pub mod Shutdown
pub mod Quiescence
pub mod Termination
pub mod Register
use resourcery.Base.{
  ℕ, ◌+◌, ◌%◌, ◌^◌, Bool, true, false, ◌&&◌, Option, none, some, List, [], ◌∷◌, ◌++◌, map, ◌==◌,
  if◌then◌else◌, update,
}
use resourcery.Lifecycle.{Control, Token, shutdown}
use resourcery.Lifecycle
use resourcery.World.{
  Program, World, Call, running, shutting_down, terminated, cancel_token, abort, notify_quiescent,
}

-- `HashMap` of the standard library, as an association list.
module _ {V : Type 0} where
  unfoldable pub remove_task : ℕ → List (ℕ × V) → List (ℕ × V)
  remove_task id [] = []
  remove_task id ((i, v) ∷ rest) =
      if i == id then remove_task id rest else (i, v) ∷ remove_task id rest

  unfoldable pub insert_task : ℕ → V → List (ℕ × V) → List (ℕ × V)
  unfolding remove_task
  insert_task id v tasks = (id, v) ∷ remove_task id tasks

-- What the rest of the program does while a future is suspended, or between two critical sections.
abbrev pub Meanwhile : Program → Type 0
Meanwhile P = World P → World P

-- How often `notify_waiters` was called on `quiescent`.
unfoldable pub notices : {E : Type 0} → List (Call E) → ℕ
notices [] = 0
notices (notify_quiescent ∷ calls) = notices calls + 1
notices (call ∷ calls) = notices calls

-- Where the loop of `shutdown` is, with the number of calls of `notify_waiters` when its `Notified`
-- was made: before the test of the phase, or at the `await`.
pub data AwaitPoint : Type 0 where
  testing : (made : ℕ) → AwaitPoint
  notified : (made : ℕ) → AwaitPoint

module _ {P : Program} where
  abbrev pub control : World P → ℕ → Control
  control w g = (w.generations g).control

  abbrev pub set_control : World P → ℕ → Control → World P
  set_control w g c = record w {
    generations = update w.generations g (record (w.generations g) { control = c });
  }

  -- `control.cancel()` on the control of a generation.
  unfoldable pub cancel_control : World P → ℕ → World P
  unfolding Lifecycle.cancel
  cancel_control w g =
      let (c, tokens) = Lifecycle.cancel (control w g) in
      let w' = set_control w g c in record w' { calls = map cancel_token tokens ++ w.calls }

  unfoldable pub is_accepting : World P → Bool
  is_accepting w = elim w.phase [ running ↦ true | _ ↦ false ]

  -- The part of `register` under the lock: the second test of the phase, and the activation, which
  -- is tried only in a domain that accepts.
  unfoldable pub register_locked : World P → ℕ → World P × Option ℕ
  unfolding is_accepting Lifecycle.activate insert_task
  register_locked w g =
      let (c, activated) = Lifecycle.activate (control w g) in
      if is_accepting w && activated
      then (
        record (set_control w g c) {
          next_task = (w.next_task + 1) % 2 ^ 64;
          tasks = insert_task w.next_task g w.tasks;
        },
        some w.next_task,
      )
      else (w, none)

  -- `g` names the generation whose control and abort handle are passed in.
  unfoldable pub register : World P → ℕ → World P × Option ℕ
  unfolding is_accepting register_locked
  register w g = if is_accepting w then register_locked w g else (w, none)

  -- The phase is stored as `Terminated` when the last task is gone, and the waiters are woken.
  abbrev close_if_empty : World P → World P
  close_if_empty w = elim w.tasks [
    | [] ↦ record w { phase = terminated; calls = notify_quiescent ∷ w.calls }
    | _ ↦ w
  ]

  unfoldable pub task_finished : World P → ℕ → World P
  unfolding is_accepting remove_task
  task_finished w id =
      let w' : World P = record w { tasks = remove_task id w.tasks } in
      if is_accepting w' then w' else close_if_empty w'

  -- The exchange of `Running` for `ShuttingDown`; only the call that makes it cancels the token.
  abbrev begin_shutdown : World P → World P
  begin_shutdown w = elim w.phase [
    | running ↦ record w { phase = shutting_down; calls = cancel_token shutdown ∷ w.calls }
    | _ ↦ w
  ]

  -- The controls of the tasks, each named by its generation.
  abbrev pub controls : World P → List ℕ
  controls w = map (λ task. task.1) w.tasks

  -- The part of `cancel` under the lock: the state, and the controls that it goes on to cancel.
  unfoldable pub cancel_locked : World P → World P × List ℕ
  cancel_locked w =
      let w' = begin_shutdown w in
      elim w'.phase [ terminated ↦ (w', []) | _ ↦ (close_if_empty w', controls w') ]

  unfoldable pub cancel_controls : World P → List ℕ → World P
  unfolding cancel_control
  cancel_controls w [] = w
  cancel_controls w (g ∷ gs) = cancel_controls (cancel_control w g) gs

  unfoldable pub cancel : World P → World P
  unfolding cancel_locked cancel_controls
  cancel w = let (w', gs) = cancel_locked w in cancel_controls w' gs

  -- `try_acquire` reads the phase of the domain and that of the control, and then both again.
  unfoldable pub try_acquire : World P → ℕ → Bool
  unfolding is_accepting Lifecycle.is_active
  try_acquire w g =
      if is_accepting w && Lifecycle.is_active (control w g)
      then is_accepting w && Lifecycle.is_active (control w g)
      else false

  -- `task.abort.abort()` for each task that is left.
  unfoldable pub abort_tasks : World P → List ℕ → World P
  abort_tasks w [] = w
  abort_tasks w (g ∷ gs) = abort_tasks (record w { calls = abort g ∷ w.calls }) gs

  -- The loop of `shutdown`. Each element of the list is what happens before the future's next
  -- action. `none` means that the future has not returned when the list is over. A `Notified` is
  -- woken by the calls of `notify_waiters` that come after it was made, and by no others.
  unfoldable pub await_quiescence : World P → AwaitPoint → List (Meanwhile P) → Option (World P)
  unfolding notices
  await_quiescence w at [] = none
  await_quiescence w (testing made) (others ∷ rest) =
      let again = await_quiescence (others w) (notified made) rest in
      elim (others w).phase [ terminated ↦ some (others w) | _ ↦ again ]
  await_quiescence w (notified made) (others ∷ rest) =
      let now = notices (others w).calls in
      await_quiescence (others w) (if now == made then notified made else testing now) rest

  unfoldable pub shutdown_domain : World P → List (Meanwhile P) → Option (World P)
  unfolding cancel await_quiescence notices
  shutdown_domain w waits =
      let w' = cancel w in await_quiescence w' (testing (notices w'.calls)) waits

  -- Between its own `cancel` and the collection of the abort handles other threads may run.
  unfoldable pub terminate : World P → Meanwhile P → List (Meanwhile P) → Option (World P)
  unfolding cancel abort_tasks shutdown_domain
  terminate w others waits =
      let w' = others (cancel w) in shutdown_domain (abort_tasks w' (controls w')) waits
