-- ===== src/Domain/Shutdown.antt =====
-- src/domain.rs: what a shutdown reaches, and when it ends.
use resourcery.Base.{
  subst, ap, ◌⊎◌, inl, inr, update_self, ℕ, ◌≡◌, ◌≢◌, refl, ◌∙◌, false, List, [], ◌∷◌, arith, All,
  ==_refl,
}
use resourcery.Lifecycle
use resourcery.Lifecycle.{cancellable, Phase}
use resourcery.World.{Program, World, terminated, shutting_down}
use resourcery.Domain.{
  control, is_accepting, cancel_control, cancel_controls, cancel_locked, cancel, controls,
}
use resourcery.Domain.Frame.{tasks-cancel_locked, cancel_locked-rejects}

module _ {P : Program} where
  pub is_accepting-phase : (w u : World P) → w.phase ≡ u.phase → is_accepting w ≡ is_accepting u
  unfolding is_accepting
  is_accepting-phase w u e = ground arith

  abbrev Stopping : World P → ℕ → Type 0
  Stopping w g = cancellable (control w g).phase ≡ false

  cancel_control-Stopping : (w : World P) (g : ℕ) → Stopping (cancel_control w g) g
  unfolding cancel_control Lifecycle.cancel
  cancel_control-Stopping w g = ground (arith, ==_refl g)

  cancel_control-keeps : (w : World P) (g h : ℕ) → Stopping w h → Stopping (cancel_control w g) h
  unfolding cancel_control Lifecycle.cancel
  cancel_control-keeps w g h s = ground arith

  cancel_controls-keeps :
      (w : World P) (gs : List ℕ) (h : ℕ) → Stopping w h → Stopping (cancel_controls w gs) h
  unfolding cancel_controls
  cancel_controls-keeps w [] h s = s
  cancel_controls-keeps w (g ∷ gs) h s =
      cancel_controls-keeps (cancel_control w g) gs h (cancel_control-keeps w g h s)

  cancel_controls-Stopping : (w : World P) (gs : List ℕ) → All (Stopping (cancel_controls w gs)) gs
  unfolding cancel_controls
  cancel_controls-Stopping w [] = tt
  cancel_controls-Stopping w (g ∷ gs) = (
    cancel_controls-keeps (cancel_control w g) gs g (cancel_control-Stopping w g),
    cancel_controls-Stopping (cancel_control w g) gs,
  )

  pub phase-cancel_controls :
      (w : World P) (gs : List ℕ)
      → ((cancel_controls w gs).phase ≡ w.phase) × ((cancel_controls w gs).tasks ≡ w.tasks)
  unfolding cancel_controls cancel_control
  phase-cancel_controls w [] = (refl, refl)
  phase-cancel_controls w (g ∷ gs) = phase-cancel_controls (cancel_control w g) gs

  -- A domain that is not terminated: which controls the shutdown cancels.
  controls-of-cancel : (w : World P) → w.phase ≢ terminated → (cancel_locked w).1 ≡ controls w
  unfolding cancel_locked
  controls-of-cancel w h = ground arith

  -- In a domain that is not terminated, `cancel` leaves a domain that does not accept, with the
  -- tasks that it had, and the control of every one of these is past `Starting` and `Active`.
  pub cancel-Stopping :
      (w : World P)
      → w.phase ≢ terminated
      → (is_accepting (cancel w) ≡ false)
        × ((cancel w).tasks ≡ w.tasks)
        × All (Stopping (cancel w)) (controls w)
  unfolding cancel
  cancel-Stopping w h =
      let w' = (cancel_locked w).0 in
      let (p, t) = phase-cancel_controls w' (cancel_locked w).1 in
      (
        is_accepting-phase (cancel w) w' p ∙ cancel_locked-rejects w,
        t ∙ tasks-cancel_locked w,
        subst (All (Stopping (cancel w))) (controls-of-cancel w h)
            (cancel_controls-Stopping w' (cancel_locked w).1),
      )

  cancel_control-Stopping_id : (w : World P) (g : ℕ) → Stopping w g → cancel_control w g ≡ w
  unfolding cancel_control Lifecycle.cancel
  cancel_control-Stopping_id w g s =
      rw (s, Lifecycle.cancel)
        (ap (λ f. record w { generations = f })
          (update_self w.generations g (w.generations g) refl))

  cancel_controls-Stopping_id :
      (w : World P) (gs : List ℕ) → All (Stopping w) gs → cancel_controls w gs ≡ w
  unfolding cancel_controls
  cancel_controls-Stopping_id w [] s = refl
  cancel_controls-Stopping_id w (g ∷ gs) s =
      ap (λ u. cancel_controls u gs) (cancel_control-Stopping_id w g s.0)
      ∙ cancel_controls-Stopping_id w gs s.1

  -- A domain that was cancelled: it is terminated, or shutting down with tasks left.
  abbrev Closed : World P → Type 0
  Closed w = (w.phase ≡ terminated) ⊎ ((w.phase ≡ shutting_down) × (w.tasks ≢ []))

  cancel_locked-Closed : (w : World P) → Closed (cancel_locked w).0
  unfolding cancel_locked
  cancel_locked-Closed w = ground arith

  cancel_locked-Closed_id : (w : World P) → Closed w → (cancel_locked w).0 ≡ w
  unfolding cancel_locked
  cancel_locked-Closed_id w c = ground arith

  cancel-Closed : (w : World P) → Closed (cancel w)
  unfolding cancel
  cancel-Closed w =
      let (p, t) = phase-cancel_controls (cancel_locked w).0 (cancel_locked w).1 in
      rw (p, t) (cancel_locked-Closed w)

  controls-terminated : (w : World P) → w.phase ≡ terminated → (cancel_locked w).1 ≡ []
  unfolding cancel_locked
  controls-terminated w e = ground arith

  cancel-terminated : (w : World P) → w.phase ≡ terminated → (cancel w).phase ≡ terminated
  unfolding cancel cancel_locked cancel_controls
  cancel-terminated w e = ground arith

  cancel_again-Stopping :
      (w : World P) → Closed (cancel w) → All (Stopping (cancel w)) (cancel_locked (cancel w)).1
  cancel_again-Stopping w (inl e) = rw (controls-terminated (cancel w) e) tt
  cancel_again-Stopping w (inr (p, more)) =
      let open_before : w.phase ≢ terminated = λ e. cc (cancel-terminated w e, p) in
      let (_, tasks, stopping) = cancel-Stopping w open_before in
      rw (controls-of-cancel (cancel w) (λ e. cc (e, p)), tasks) stopping

  -- `cancel` is idempotent: a second call in the state that the first one leaves changes nothing,
  -- and cancels no token, in any domain.
  pub cancel-cancel : (w : World P) → cancel (cancel w) ≡ cancel w
  unfolding cancel
  cancel-cancel w =
      let u = cancel w in
      ap (λ v. cancel_controls v (cancel_locked u).1) (cancel_locked-Closed_id u (cancel-Closed w))
      ∙ cancel_controls-Stopping_id u (cancel_locked u).1
          (cancel_again-Stopping w (cancel-Closed w))
