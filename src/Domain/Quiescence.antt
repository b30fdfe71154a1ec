-- ===== src/Domain/Quiescence.antt =====
-- src/domain.rs: the future of `shutdown` comes to an end.
use resourcery.Base.{
  In, sym, ◌≤◌, ◌<◌, ==_iff, ℕ, ◌≡◌, ◌≢◌, refl, ◌∙◌, false, List, [], ◌∷◌, Option, none, some,
  arith, All, inl, inr, ◌⊎◌,
}
use resourcery.World.{Program, World, terminated}
use resourcery.Domain.{
  Meanwhile, is_accepting, cancel, cancel_locked, task_finished, remove_task, await_quiescence,
  shutdown_domain, AwaitPoint, testing, notified, notices,
}
use resourcery.Domain.Frame.{tasks-cancel_locked, cancel_locked-rejects, tasks-task_finished}
use resourcery.Domain.Shutdown.{is_accepting-phase, phase-cancel_controls}

List-cases : {A : Type 0} (xs : List A) → (xs ≡ []) ⊎ (xs ≢ [])
List-cases [] = inl refl
List-cases (x ∷ xs) = inr (λ e. cc)

-- Every task is among those with these ids.
abbrev pub Covered : List ℕ → List (ℕ × ℕ) → Type 0
Covered ids tasks = All (λ task. In task.0 ids) tasks

remove_task-Covered :
    (id : ℕ) (ids : List ℕ) (tasks : List (ℕ × ℕ))
    → Covered (id ∷ ids) tasks
    → Covered ids (remove_task id tasks)
unfolding remove_task
remove_task-Covered id ids [] h = tt
remove_task-Covered id ids ((i, v) ∷ rest) h = ground (arith, remove_task-Covered id ids rest h.1)

Covered-nil : (tasks : List (ℕ × ℕ)) → Covered [] tasks → tasks ≡ []
Covered-nil [] h = refl
Covered-nil (x ∷ xs) h = absurd h.0

module _ {P : Program} where
  -- What a wait for the end of the domain meets: the domain is terminated, or it does not accept and
  -- has tasks left, all of them among those that are still to finish.
  abbrev pub Draining : World P → List ℕ → Type 0
  Draining w ids =
      (w.phase ≡ terminated) ⊎ ((is_accepting w ≡ false) × (w.tasks ≢ []) × Covered ids w.tasks)

  -- The `Notified` of the waiter was made after the calls that it does not see; if it awaits it in a
  -- domain that is terminated, it was called since.
  abbrev pub Woken : World P → AwaitPoint → Type 0
  Woken w (testing made) = made ≤ notices w.calls
  Woken w (notified made) =
      (made ≤ notices w.calls) × (w.phase ≡ terminated → made < notices w.calls)

  task_finished-last :
      (w : World P) (id : ℕ)
      → is_accepting w ≡ false
      → remove_task id w.tasks ≡ []
      → (task_finished w id).phase ≡ terminated
  unfolding task_finished is_accepting
  task_finished-last w id a e = ground arith

  task_finished-rejects :
      (w : World P) (id : ℕ) → is_accepting w ≡ false → is_accepting (task_finished w id) ≡ false
  unfolding task_finished is_accepting
  task_finished-rejects w id a = ground arith

  task_finished-terminated :
      (w : World P) (id : ℕ) → w.phase ≡ terminated → (task_finished w id).phase ≡ terminated
  unfolding task_finished
  task_finished-terminated w id e = ground arith

  -- The domain is left in its phase, or the waiters are woken.
  task_finished-notices :
      (w : World P) (id : ℕ)
      → (notices w.calls ≤ notices (task_finished w id).calls)
        × (((task_finished w id).phase ≡ w.phase)
            ⊎ (notices w.calls < notices (task_finished w id).calls))
  unfolding task_finished notices
  task_finished-notices w id = ground arith

  task_finished-Woken :
      (w : World P) (id made : ℕ)
      → Woken w (notified made)
      → Woken (task_finished w id) (notified made)
  task_finished-Woken w id made (le, tells) =
      let (more, same) = task_finished-notices w id in
      (
        omega (arith, le, more),
        λ e. elim same [
          | inl p ↦ omega (arith, more, tells (sym p ∙ e))
          | inr lt ↦ omega (arith, le, lt)
        ],
      )

  task_finished-Draining :
      (w : World P) (id : ℕ) (ids : List ℕ)
      → Draining w (id ∷ ids)
      → Draining (task_finished w id) ids
  task_finished-Draining w id ids (inl e) = inl (task_finished-terminated w id e)
  task_finished-Draining w id ids (inr (a, some_left, covered)) =
      elim (List-cases (remove_task id w.tasks)) [
        | inl e ↦ inl (task_finished-last w id a e)
        | inr more ↦ inr (
          task_finished-rejects w id a,
          rw (tasks-task_finished w id) more,
          rw (tasks-task_finished w id) (remove_task-Covered id ids w.tasks covered),
        )
      ]

  -- The tasks of these ids finish one after another, each before another action of the waiter; then
  -- the waiter takes two more.
  abbrev pub finishing : List ℕ → List (Meanwhile P)
  finishing [] = (λ w. w) ∷ (λ w. w) ∷ []
  finishing (id ∷ ids) = (λ w. task_finished w id) ∷ finishing ids

  -- The wait is over, in a state of which this holds.
  abbrev pub Returns : (World P → Type 0) → Option (World P) → Type 0
  Returns Q none = ⊥
  Returns Q (some u) = Q u

  abbrev pub Ends : Option (World P) → Type 0
  Ends r = Returns (λ u. u.phase ≡ terminated) r

  Returns-fst :
      (Q R : World P → Type 0) (r : Option (World P)) → Returns (λ u. Q u × R u) r → Returns Q r
  Returns-fst Q R none h = h
  Returns-fst Q R (some u) h = h.0

  -- An action of the waiter, in the world that it meets.
  await-testing :
      (w : World P) (made : ℕ) (others : Meanwhile P) (waits : List (Meanwhile P))
      → (((others w).phase ≡ terminated)
          × (await_quiescence w (testing made) (others ∷ waits) ≡ some (others w)))
        ⊎ (((others w).phase ≢ terminated)
            × (await_quiescence w (testing made) (others ∷ waits)
                ≡ await_quiescence (others w) (notified made) waits))
  unfolding await_quiescence
  await-testing w made others waits = ground arith

  await-notified :
      (w : World P) (made : ℕ) (others : Meanwhile P) (waits : List (Meanwhile P))
      → ((notices (others w).calls ≡ made)
          × (await_quiescence w (notified made) (others ∷ waits)
              ≡ await_quiescence (others w) (notified made) waits))
        ⊎ (await_quiescence w (notified made) (others ∷ waits)
            ≡ await_quiescence (others w) (testing (notices (others w).calls)) waits)
  unfolding await_quiescence
  await-notified w made others waits = ground (arith, ==_iff (notices (others w).calls) made)

  -- The tasks' ends keep `Q`.
  module _ (Q : World P → Type 0)
      (keeps : (w : World P) (id : ℕ) → Q w → Q (task_finished w id)) where
    await-over :
        (w : World P) (at : AwaitPoint)
        → Woken w at
        → w.phase ≡ terminated
        → Q w
        → Returns (λ u. (u.phase ≡ terminated) × Q u) (await_quiescence w at (finishing []))
    await-over w (testing made) k e q = elim (await-testing w made (λ x. x) ((λ x. x) ∷ [])) [
      | inl (p, r) ↦ rw r (p, q)
      | inr (p, r) ↦ absurd (p e)
    ]
    await-over w (notified made) k e q = elim (await-notified w made (λ x. x) ((λ x. x) ∷ [])) [
      | inl (p, r) ↦ absurd (omega (arith, p, k.1 e))
      | inr r ↦ rw r (elim (await-testing w (notices w.calls) (λ x. x) []) [
        | inl (p, s) ↦ rw s (p, q)
        | inr (p, s) ↦ absurd (p e)
      ])
    ]

    pub await-at :
        (w : World P) (at : AwaitPoint) (ids : List ℕ)
        → Woken w at
        → Draining w ids
        → Q w
        → Returns (λ u. (u.phase ≡ terminated) × Q u) (await_quiescence w at (finishing ids))
    await-at w at [] k (inl e) q = await-over w at k e q
    await-at w at [] k (inr (a, more, h)) q = absurd (more (Covered-nil w.tasks h))
    await-at w (testing made) (id ∷ ids) k d q =
        let u = task_finished w id in
        let (le, _) = task_finished-notices w id in
        elim (await-testing w made (λ x. task_finished x id) (finishing ids)) [
          | inl (p, r) ↦ rw r (p, keeps w id q)
          | inr (p, r) ↦ rw r (
              await-at u (notified made) ids (omega (arith, k, le), λ e. absurd (p e))
                (task_finished-Draining w id ids d) (keeps w id q))
        ]
    await-at w (notified made) (id ∷ ids) k d q =
        let u = task_finished w id in
        elim (await-notified w made (λ x. task_finished x id) (finishing ids)) [
          | inl (p, r) ↦ rw r (
              await-at u (notified made) ids (task_finished-Woken w id made k)
                (task_finished-Draining w id ids d) (keeps w id q))
          | inr r ↦ rw r (
              await-at u (testing (notices u.calls)) ids (omega arith)
                (task_finished-Draining w id ids d) (keeps w id q))
        ]

  cancel_locked-left : (w : World P) → (w.tasks ≡ []) → (cancel_locked w).0.phase ≡ terminated
  unfolding cancel_locked
  cancel_locked-left w e = ground arith

  pub cancel-Draining : (w : World P) (ids : List ℕ) → Covered ids w.tasks → Draining (cancel w) ids
  unfolding cancel
  cancel-Draining w ids h =
      let w' = (cancel_locked w).0 in
      let (p, t) = phase-cancel_controls w' (cancel_locked w).1 in
      let tasks = t ∙ tasks-cancel_locked w in
      elim (List-cases w.tasks) [
        | inl e ↦ inl (p ∙ cancel_locked-left w e)
        | inr more ↦ inr (
          is_accepting-phase (cancel w) w' p ∙ cancel_locked-rejects w,
          rw tasks more,
          rw tasks h,
        )
      ]

  -- `shutdown` comes to an end, and to a terminated domain, once every task that was registered has
  -- finished, whatever the order and whatever other ids finish among them, and it has taken two more
  -- actions. It goes on from its `await` only by a call of `notify_waiters` after its `Notified`
  -- was made, and none that it needs is missed.
  pub shutdown_domain-Ends :
      (w : World P) (ids : List ℕ) → Covered ids w.tasks → Ends (shutdown_domain w (finishing ids))
  unfolding shutdown_domain
  shutdown_domain-Ends w ids h =
      Returns-fst (λ u. u.phase ≡ terminated) (λ u. Unit)
        (await_quiescence (cancel w) (testing (notices (cancel w).calls)) (finishing ids))
        (await-at (λ u. Unit) (λ u id q. q) (cancel w) (testing (notices (cancel w).calls)) ids
          (omega arith) (cancel-Draining w ids h) tt)
