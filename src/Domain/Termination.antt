-- ===== src/Domain/Termination.antt =====
-- src/domain.rs: the future of `terminate` comes to an end, and what it does to the tasks.
use resourcery.Base.{In, ℕ, ◌≡◌, refl, List, [], ◌∷◌, arith, All, inl, inr}
use resourcery.World.{Program, World, terminated, abort}
use resourcery.Domain.{
  Meanwhile, cancel, cancel_locked, cancel_control, cancel_controls, task_finished, shutdown_domain,
  abort_tasks, terminate, controls, testing, notices,
}
use resourcery.Domain.Quiescence.{Covered, Returns, finishing, await-at, cancel-Draining}

All-imp :
    {A : Type 0} {Q R : A → Type 0} (xs : List A) → ((a : A) → Q a → R a) → All Q xs → All R xs
All-imp [] f h = tt
All-imp (x ∷ xs) f h = (f x h.0, All-imp xs f h.1)

module _ {P : Program} where
  -- The abort of a task was called.
  abbrev pub Aborted : World P → ℕ → Type 0
  Aborted w g = In (abort g) w.calls

  task_finished-Aborted : (w : World P) (id g : ℕ) → Aborted w g → Aborted (task_finished w id) g
  unfolding task_finished
  task_finished-Aborted w id g h = ground arith

  cancel_controls-Aborted :
      (w : World P) (gs : List ℕ) (g : ℕ) → Aborted w g → Aborted (cancel_controls w gs) g
  unfolding cancel_controls cancel_control
  cancel_controls-Aborted w [] g h = h
  cancel_controls-Aborted w (c ∷ gs) g h =
      cancel_controls-Aborted (cancel_control w c) gs g (ground arith)

  cancel-Aborted : (w : World P) (g : ℕ) → Aborted w g → Aborted (cancel w) g
  unfolding cancel cancel_locked
  cancel-Aborted w g h =
      cancel_controls-Aborted (cancel_locked w).0 (cancel_locked w).1 g (ground arith)

  abort_tasks-kept :
      (w : World P) (gs : List ℕ) (g : ℕ) → Aborted w g → Aborted (abort_tasks w gs) g
  unfolding abort_tasks
  abort_tasks-kept w [] g h = h
  abort_tasks-kept w (c ∷ gs) g h =
      abort_tasks-kept (record w { calls = abort c ∷ w.calls }) gs g (inr h)

  abort_tasks-Aborted : (w : World P) (gs : List ℕ) → All (Aborted (abort_tasks w gs)) gs
  unfolding abort_tasks
  abort_tasks-Aborted w [] = tt
  abort_tasks-Aborted w (g ∷ gs) =
      let w' = record w { calls = abort g ∷ w.calls } in
      (abort_tasks-kept w' gs g (inl refl), abort_tasks-Aborted w' gs)

  tasks-abort_tasks : (w : World P) (gs : List ℕ) → (abort_tasks w gs).tasks ≡ w.tasks
  unfolding abort_tasks
  tasks-abort_tasks w [] = refl
  tasks-abort_tasks w (g ∷ gs) = tasks-abort_tasks (record w { calls = abort g ∷ w.calls }) gs

  -- `terminate` comes to an end as well, and to a terminated domain, whatever other threads do
  -- before it collects the abort handles, once every task that is there then has finished and it has
  -- taken two more actions; each of those tasks has been aborted by then.
  pub terminate-Ends :
      (w : World P) (others : Meanwhile P) (ids : List ℕ)
      → Covered ids (others (cancel w)).tasks
      → Returns
          (λ u. (u.phase ≡ terminated) × All (Aborted u) (controls (others (cancel w))))
          (terminate w others (finishing ids))
  unfolding terminate shutdown_domain
  terminate-Ends w others ids h =
      let w' = others (cancel w) in
      let gs = controls w' in
      let u = abort_tasks w' gs in
      await-at (λ x. All (Aborted x) gs) (λ x id. All-imp gs (λ g. task_finished-Aborted x id g))
        (cancel u) (testing (notices (cancel u).calls)) ids (omega arith)
        (cancel-Draining u ids (rw (tasks-abort_tasks w' gs) h))
        (All-imp gs (λ g. cancel-Aborted u g) (abort_tasks-Aborted w' gs))
