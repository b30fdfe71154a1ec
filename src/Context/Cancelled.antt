-- ===== src/Context/Cancelled.antt =====
-- src/context.rs, `cancelled`: when a task learns that it is to end.
use resourcery.Base.{
  suc, zero, ◌==◌, ==_refl, ℕ, Bool, true, false, not, ◌||◌, ◌≡◌, ◌≢◌, refl, ◌∙◌, ap, arith,
}
use resourcery.Lifecycle.{cancellable, Phase, starting, active, cancelling, finished, child}
use resourcery.World.{Program, World, new_world}
use resourcery.Domain.{control, is_accepting}
use resourcery.Domain.{cancel_control}
use resourcery.Reference.{strong, set_strong, drop_ref}
use resourcery.Reference.Leases.{drop_ref-eq-suc, drop_ref_cases}
use resourcery.Moves.Operations.{drop_ref-Moves}
use resourcery.Tokens.{Tokens}
use resourcery.Moves.{Moves}
use resourcery.Moves.Invariant.{Inv, most}
use resourcery.Moves.Preservation.{Moves-Inv, Moves-new-Inv}

abbrev pub is_cancelling : Phase → Bool
is_cancelling cancelling = true
is_cancelling _ = false

module _ {P : Program} (tokens : Tokens P.Error) where
  -- Whether `cancelled().await` goes on, in the task of the generation `g`.
  unfoldable pub cancelled : World P → ℕ → Bool
  cancelled w g = tokens.is_cancelled w.calls (control w g).cancellation

  pub record Informed (w : World P) (g : ℕ) : Type 0 where
    pub running :
        (control w g).phase ≢ finished
        → cancelled w g ≡ (not (is_accepting w) || is_cancelling (control w g).phase)
    pub stopping : is_accepting w ≡ false → cancelled w g ≡ true

  by_domain : (w : World P) → Inv w → (g : ℕ) → is_accepting w ≡ false → cancelled w g ≡ true
  unfolding cancelled
  by_domain w v g a =
      ap (tokens.is_cancelled w.calls) (v.token g)
      ∙ tokens.by_parent w.calls g (ground (arith, v.signalled))

  by_control :
      (w : World P) → Inv w → (g : ℕ) → (control w g).phase ≡ cancelling → cancelled w g ≡ true
  unfolding cancelled
  by_control w v g e =
      ap (tokens.is_cancelled w.calls) (v.token g)
      ∙ tokens.by_call w.calls (child g) (ground (arith, v.at_least g))

  by_nobody :
      (w : World P)
      → Inv w
      → (g : ℕ) → is_accepting w ≡ true
      → most (control w g).phase ≡ 0
      → cancelled w g ≡ false
  unfolding cancelled
  by_nobody w v g a e =
      ap (tokens.is_cancelled w.calls) (v.token g)
      ∙ tokens.by_nothing w.calls g (ground (arith, v.signalled)) (ground (arith, v.at_most g))

  running_case :
      (w : World P)
      → Inv w
      → (g : ℕ) → (a : Bool) → is_accepting w ≡ a
      → (p : Phase) → (control w g).phase ≡ p
      → p ≢ finished
      → cancelled w g ≡ (not a || is_cancelling p)
  running_case w v g false a p e n = by_domain w v g a
  running_case w v g true a starting e n = by_nobody w v g a (ap most e)
  running_case w v g true a active e n = by_nobody w v g a (ap most e)
  running_case w v g true a cancelling e n = by_control w v g e
  running_case w v g true a finished e n = absurd (n refl)

  -- In every state that a run from a new domain reaches: `cancelled` in the task of a generation
  -- whose control is not finished goes on if the domain does not accept or the control is in the
  -- phase `Cancelling`, and only then. In a domain that does not accept it goes on for every
  -- generation.
  pub Moves-Informed : {w : World P} → Moves new_world w → (g : ℕ) → Informed w g
  Moves-Informed {w} m g =
      let v = Moves-new-Inv m in
      record {
        running = λ n. running_case w v g (is_accepting w) refl (control w g).phase refl n;
        stopping = by_domain w v g;
      }

  drop_ref-last :
      (w : World P) (g : ℕ)
      → strong w g ≡ 1
      → (p : Phase) → (control w g).phase ≡ p
      → p ≢ finished
      → (control (drop_ref w g) g).phase ≡ cancelling
  unfolding drop_ref cancel_control
  drop_ref-last w g h starting e n = (drop_ref_cases w g 0 h (ap cancellable e)).1
  drop_ref-last w g h active e n = (drop_ref_cases w g 0 h (ap cancellable e)).1
  drop_ref-last w g h cancelling e n = ground (arith, ==_refl g)
  drop_ref-last w g h finished e n = absurd (n refl)

  cancellation-set_strong :
      (w : World P) (g n : ℕ)
      → (control (set_strong w g n) g).cancellation ≡ (control w g).cancellation
  cancellation-set_strong w g n = ground (arith, ==_refl g)

  drop_ref-other :
      (w : World P) (g n : ℕ)
      → strong w g ≡ suc (suc n)
      → cancelled (drop_ref w g) g ≡ cancelled w g
  unfolding cancelled
  drop_ref-other w g n h =
      ap (λ (u : World P). cancelled u g) (drop_ref-eq-suc w g n h)
      ∙ ap (tokens.is_cancelled w.calls) (cancellation-set_strong w g (suc n))

  -- In every state that a run from a new domain reaches, the end of a lease of a generation whose
  -- control is not finished lets `cancelled` go on in its task if the lease was the last one; the
  -- end of another lease makes no difference to it.
  pub cancelled-drop_ref :
      {w : World P}
      → Moves new_world w
      → (g n : ℕ) → strong w g ≡ suc n
      → (control w g).phase ≢ finished
      → cancelled (drop_ref w g) g ≡ (n == 0 || cancelled w g)
  cancelled-drop_ref {w} m g zero e h =
      let v = Moves-new-Inv m in
      by_control (drop_ref w g) (Moves-Inv (drop_ref-Moves v g) v) g
        (drop_ref-last w g e (control w g).phase refl h)
  cancelled-drop_ref {w} m g (suc n) e h = ground (arith, drop_ref-other w g n e)
