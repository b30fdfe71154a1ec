-- ===== src/Moves/Preservation/Phases.antt =====
-- The atomic actions on phases, tokens and tasks, and the allocation of a generation.
use resourcery.Base.{ℕ, ◌<◌, ◌≡◌, inl, inr, true, List, [], ◌∷◌, arith, All, Option}
use resourcery.Lifecycle
use resourcery.Lifecycle.{
  Control, Token, shutdown, child, Phase, starting, active, cancelling, finished,
}
use resourcery.World.{Program, World, Cleanup}
use resourcery.Domain.{
  control, is_accepting, register_locked, task_finished, cancel_locked, cancel_control, remove_task,
  insert_task,
}
use resourcery.Domain.Frame.{
  tasks-task_finished, next-task_finished, tasks-cancel_locked, next-cancel_locked,
}
use resourcery.Domain.Register.{registered, register_locked_cases}
use resourcery.Registry.{slot}
use resourcery.Context.{allocate, finish_control}
use resourcery.Moves.Invariant.{Inv}

All-remove_task {κ} :
    {V : Type 0} (Q : ℕ × V → Type κ) (id : ℕ) (tasks : List (ℕ × V))
    → All Q tasks
    → All Q (remove_task id tasks)
unfolding remove_task
All-remove_task Q id [] h = h
All-remove_task Q id ((i, v) ∷ rest) h = ground (arith, All-remove_task Q id rest h.1)

All-weaken {κ μ} :
    {A : Type 0} {Q : A → Type κ} {R : A → Type μ} (xs : List A)
    → ((a : A) → Q a → R a)
    → All Q xs
    → All R xs
All-weaken [] f h = tt
All-weaken (x ∷ xs) f h = (f x h.0, All-weaken xs f h.1)

module _ {P : Program} (w : World P) (v : Inv w) where
  open v use {
    quiet, signalled, token, at_least, at_most, fresh_phase, fresh_strong, known_tasks, known_slots,
  }

  pub cancel_control-Inv : (g : ℕ) → g < w.next_generation → Inv (cancel_control w g)
  unfolding cancel_control is_accepting slot Lifecycle.cancel
  cancel_control-Inv g h = record {
    quiet = quiet;
    signalled = ground (arith, token g);
    token = λ j. ground (arith, token g, token j);
    at_least = λ j. ground (arith, token g, at_least g, at_least j);
    at_most = λ j. ground (arith, token g, at_most g, at_most j);
    fresh_phase = λ j l. ground (arith, fresh_phase j l);
    fresh_strong = λ j l. ground (arith, fresh_strong j l);
    known_tasks = known_tasks;
    known_slots = known_slots;
  }

  pub finish_control-Inv : (g : ℕ) → g < w.next_generation → Inv (finish_control w g)
  unfolding finish_control is_accepting slot
  finish_control-Inv g h = record {
    quiet = quiet;
    signalled = signalled;
    token = λ j. ground (arith, token g, token j);
    at_least = λ j. ground (arith, at_least j);
    at_most = λ j. ground (arith, at_most g, at_most j);
    fresh_phase = λ j l. ground (arith, fresh_phase j l);
    fresh_strong = λ j l. ground (arith, fresh_strong j l);
    known_tasks = known_tasks;
    known_slots = known_slots;
  }

  registered-Inv :
      (g : ℕ)
      → g < w.next_generation
      → is_accepting w ≡ true
      → (control w g).phase ≡ starting
      → Inv (registered w g)
  unfolding is_accepting slot insert_task
  registered-Inv g h a p = record {
    quiet = ground arith;
    signalled = signalled;
    token = λ j. ground (arith, token g, token j);
    at_least = λ j. ground (arith, at_least j);
    at_most = λ j. ground (arith, at_most g, at_most j);
    fresh_phase = λ j l. ground (arith, fresh_phase j);
    fresh_strong = λ j l. ground (arith, fresh_strong j);
    known_tasks =
        (h, All-remove_task (λ task. task.1 < w.next_generation) w.next_task w.tasks known_tasks);
    known_slots = known_slots;
  }

  pub register_locked-Inv : (g : ℕ) → g < w.next_generation → Inv (register_locked w g).0
  register_locked-Inv g h = elim (register_locked_cases w g) [
    | inl e ↦ rw e v
    | inr (a, p, e) ↦ rw e (registered-Inv g h a p)
  ]

  pub task_finished-Inv : (id : ℕ) → Inv (task_finished w id)
  unfolding task_finished slot
  task_finished-Inv id = record {
    quiet = ground arith;
    signalled = ground arith;
    token = λ j. ground (arith, token j);
    at_least = λ j. ground (arith, at_least j);
    at_most = λ j. ground (arith, at_most j);
    fresh_phase = λ j l. ground (arith, fresh_phase j);
    fresh_strong = λ j l. ground (arith, fresh_strong j);
    known_tasks =
        rw (tasks-task_finished w id, next-task_finished w id)
          (All-remove_task (λ task. task.1 < w.next_generation) id w.tasks known_tasks);
    known_slots = λ t key s. ground (arith, known_slots t key s);
  }

  pub cancel_locked-Inv : Inv (cancel_locked w).0
  unfolding cancel_locked slot is_accepting
  cancel_locked-Inv = record {
    quiet = ground arith;
    signalled = ground arith;
    token = λ j. ground (arith, token j);
    at_least = λ j. ground (arith, at_least j);
    at_most = λ j. ground (arith, at_most j);
    fresh_phase = λ j l. ground (arith, fresh_phase j);
    fresh_strong = λ j l. ground (arith, fresh_strong j);
    known_tasks = rw (tasks-cancel_locked w, next-cancel_locked w) known_tasks;
    known_slots = λ t key s. ground (arith, known_slots t key s);
  }

  pub allocate-Inv :
      (t : ℕ) (on_finish : Option (Cleanup P)) (interface : P.Interface)
      → Inv (allocate w t on_finish interface)
  unfolding allocate slot is_accepting Lifecycle.new
  allocate-Inv t f i = record {
    quiet = quiet;
    signalled = signalled;
    token = λ j. ground (arith, token j);
    at_least = λ j. ground (arith, at_least j);
    at_most = λ j. ground (arith, at_most j, fresh_phase j);
    fresh_phase = λ j l. ground (arith, fresh_phase j);
    fresh_strong = λ j l. ground (arith, fresh_strong j);
    known_tasks = All-weaken w.tasks (λ a b. omega arith) known_tasks;
    known_slots = known_slots;
  }
