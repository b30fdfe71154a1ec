-- ===== src/Moves/Operations/Domains.antt =====
-- src/domain.rs: registration and shutdown.
use resourcery.Base.{
  ℕ, ◌<◌, refl, inl, inr, Option, none, some, List, [], ◌∷◌, All, map, if◌then◌else◌, ◌==◌,
}
use resourcery.World.{Program, World, terminated, abort}
use resourcery.Domain.{
  Meanwhile, is_accepting, register, cancel_control, cancel_controls, cancel, cancel_locked,
  controls, abort_tasks, await_quiescence, shutdown_domain, terminate, AwaitPoint, testing,
  notified, notices,
}
use resourcery.Domain.Frame.{next-cancel_locked, controls-cancel_locked}
use resourcery.Moves.{Moves, here, one, chain, branch, registers, shuts, cancels, calls_out}
use resourcery.Moves.Invariant.{Inv}
use resourcery.Moves.Preservation.{Moves-Inv}

controls-known :
    (n : ℕ) (tasks : List (ℕ × ℕ))
    → All (λ task. task.1 < n) tasks
    → All (λ g. g < n) (map (λ task. task.1) tasks)
controls-known n [] h = tt
controls-known n (task ∷ tasks) h = (h.0, controls-known n tasks h.1)

module _ {P : Program} where
  -- The rest of the program, too, acts on the state by atomic actions only.
  abbrev pub Acts : Meanwhile P → Type 0
  Acts others = (w : World P) → Moves w (others w)

  -- A result of a future, if it is ready, is reached by atomic actions.
  abbrev pub Reaches : World P → Option (World P) → Type 0
  Reaches w none = Unit
  Reaches w (some u) = Moves w u

  pub register-Moves : {w : World P} (g : ℕ) → g < w.next_generation → Moves w (register w g).0
  unfolding register
  register-Moves {w} g h = branch (is_accepting w) _ _ (λ _. one (registers g h refl)) (λ _. here)

  cancel_controls-Moves :
      (w : World P) (gs : List ℕ)
      → All (λ g. g < w.next_generation) gs
      → Moves w (cancel_controls w gs)
  unfolding cancel_controls cancel_control
  cancel_controls-Moves w [] h = here
  cancel_controls-Moves w (g ∷ gs) h =
      chain (one (cancels g h.0 refl)) (cancel_controls-Moves (cancel_control w g) gs h.1)

  cancel_locked-known :
      {w : World P} → Inv w → All (λ g. g < (cancel_locked w).0.next_generation) (cancel_locked w).1
  cancel_locked-known {w} v = rw (next-cancel_locked w) (elim (controls-cancel_locked w) [
    | inl e ↦ rw e tt
    | inr e ↦ rw e (controls-known w.next_generation w.tasks v.known_tasks)
  ])

  pub cancel-Moves : {w : World P} → Inv w → Moves w (cancel w)
  unfolding cancel
  cancel-Moves {w} v =
      chain (one (shuts refl))
        (cancel_controls-Moves (cancel_locked w).0 (cancel_locked w).1 (cancel_locked-known v))

  abort_tasks-Moves : (w : World P) (gs : List ℕ) → Moves w (abort_tasks w gs)
  unfolding abort_tasks
  abort_tasks-Moves w [] = here
  abort_tasks-Moves w (g ∷ gs) =
      chain (one (calls_out (abort g) refl refl))
        (abort_tasks-Moves (record w { calls = abort g ∷ w.calls }) gs)

  Reaches-after : {w u : World P} (r : Option (World P)) → Moves w u → Reaches u r → Reaches w r
  Reaches-after none p q = tt
  Reaches-after (some x) p q = chain p q

  test-Moves :
      (w u : World P) (again : Option (World P))
      → Moves w u
      → Reaches u again
      → Reaches w (elim u.phase [ terminated ↦ some u | _ ↦ again ])
  test-Moves w u again m h =
      elim u.phase as (λ p. Reaches w (elim p [ terminated ↦ some u | _ ↦ again ])) [
        | terminated ↦ m
        | _ ↦ Reaches-after again m h
      ]

  await-at :
      (w : World P) (at : AwaitPoint) (waits : List (Meanwhile P))
      → All Acts waits
      → Reaches w (await_quiescence w at waits)
  unfolding await_quiescence
  await-at w at [] h = tt
  await-at w (testing made) (others ∷ waits) h =
      test-Moves w (others w) (await_quiescence (others w) (notified made) waits) (h.0 w)
        (await-at (others w) (notified made) waits h.1)
  await-at w (notified made) (others ∷ waits) h =
      let now = notices (others w).calls in
      let next = if now == made then notified made else testing now in
      Reaches-after (await_quiescence (others w) next waits) (h.0 w)
        (await-at (others w) next waits h.1)

  pub shutdown-Moves :
      {w : World P}
      → Inv w
      → (waits : List (Meanwhile P)) → All Acts waits
      → Reaches w (shutdown_domain w waits)
  unfolding shutdown_domain
  shutdown-Moves {w} v waits h =
      let at = testing (notices (cancel w).calls) in
      Reaches-after (await_quiescence (cancel w) at waits) (cancel-Moves v)
        (await-at (cancel w) at waits h)

  -- `terminate`, begun where the bookkeeping is right, does nothing to the shared state but by the
  -- atomic actions, if the rest of the program does so too: a state in which it returns is reached by
  -- a chain of these.
  pub terminate-Moves :
      {w : World P}
      → Inv w
      → (others : Meanwhile P) (waits : List (Meanwhile P)) → Acts others
      → All Acts waits
      → Reaches w (terminate w others waits)
  unfolding terminate
  terminate-Moves {w} v others waits o h =
      let w' = others (cancel w) in
      let w'' = abort_tasks w' (controls w') in
      let p = chain (chain (cancel-Moves v) (o (cancel w))) (abort_tasks-Moves w' (controls w')) in
      Reaches-after (shutdown_domain w'' waits) p (shutdown-Moves (Moves-Inv p v) waits h)
