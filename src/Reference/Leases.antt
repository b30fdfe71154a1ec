-- ===== src/Reference/Leases.antt =====
-- src/reference.rs: what a lease that is added, and one that ends, does to its generation.
use resourcery.Base.{
  ℕ, zero, suc, ◌≡◌, ◌∙◌, ap, true, arith, ◌==◌, ==_refl, if◌then◌else◌, update_self, fun_ext, ◌∷◌,
}
use resourcery.Lifecycle.{cancellable, cancelling}
use resourcery.World.{Program, World, Generation, cancel_token}
use resourcery.Domain.{control}
use resourcery.Reference.{strong, set_strong, clone_ref, drop_ref}

module _ {P : Program} where
  strong-set_strong : (w : World P) (g n : ℕ) → strong (set_strong w g n) g ≡ n
  strong-set_strong w g n = ground (arith, ==_refl g)

  set_strong_twice :
      (w : World P) (g n m : ℕ) → set_strong (set_strong w g n) g m ≡ set_strong w g m
  set_strong_twice w g n m =
      ap (λ (f : ℕ → Generation P). record w { generations = f })
        (fun_ext (λ j. ground (arith, ==_refl g)))

  set_strong_self : (w : World P) (g n : ℕ) → strong w g ≡ n → set_strong w g n ≡ w
  set_strong_self w g n e =
      ap (λ (f : ℕ → Generation P). record w { generations = f })
        (update_self w.generations g _ (ap (λ (k : ℕ). record (w.generations g) { strong = k }) e))

  pub drop_ref-eq-suc :
      (w : World P) (g n : ℕ) → strong w g ≡ suc (suc n) → drop_ref w g ≡ set_strong w g (suc n)
  unfolding drop_ref
  drop_ref-eq-suc w g n e = rw (e, drop_ref)

  -- The end of a lease that is not the last takes it from the count, and changes nothing else: so
  -- a lease that comes and goes leaves no trace.
  pub drop_ref-set_strong :
      (w : World P) (g n : ℕ) → strong w g ≡ suc n → drop_ref (set_strong w g (suc (suc n))) g ≡ w
  drop_ref-set_strong w g n e =
      drop_ref-eq-suc (set_strong w g (suc (suc n))) g n (strong-set_strong w g (suc (suc n)))
      ∙ set_strong_twice w g (suc (suc n)) (suc n)
      ∙ set_strong_self w g (suc n) e

  -- The end of the last lease cancels the control: a control that was `Starting` or `Active` is in
  -- the phase `Cancelling` afterwards, and its token was cancelled once more. The end of any other
  -- lease leaves the control alone and cancels nothing.
  pub drop_ref_cases :
      (w : World P) (g n : ℕ)
      → strong w g ≡ suc n
      → cancellable (control w g).phase ≡ true
      → (strong (drop_ref w g) g ≡ n)
        × ((control (drop_ref w g) g).phase ≡ (if n == 0 then cancelling else (control w g).phase))
        × ((drop_ref w g).calls
            ≡ (if n == 0 then cancel_token (control w g).cancellation ∷ w.calls else w.calls))
  unfolding drop_ref
  drop_ref_cases w g zero e c =
      (ground (arith, ==_refl g), ground (arith, ==_refl g), ground (arith, ==_refl g))
  drop_ref_cases w g (suc n) e c =
      (ground (arith, ==_refl g), ground (arith, ==_refl g), ground (arith, ==_refl g))

  -- A clone and its end cancel out, for a reference that somebody holds.
  pub drop_ref-clone_ref :
      (w : World P) (g n : ℕ) → strong w g ≡ suc n → drop_ref (clone_ref w g) g ≡ w
  unfolding clone_ref
  drop_ref-clone_ref w g n e =
      ap (λ (k : ℕ). drop_ref (set_strong w g k) g) (omega arith) ∙ drop_ref-set_strong w g n e
