-- ===== src/Reference/Waiting.antt =====
-- src/reference.rs, `ResourceCompletion::wait`: what its observers see.
use resourcery.Base.{◌≡◌, refl, ◌⊎◌, inl, false, none, some, List, [], ◌∷◌, ◌++◌, arith, All}
use resourcery.World.{Outcome}
use resourcery.Reference.{Observed, wait}

module _ {E : Type 0} where
  -- What an observer may meet in a channel on which `outcome` is the one value ever sent: nothing
  -- yet, with the sender still there, or that value.
  abbrev pub Sees : Outcome E → Observed E → Type 0
  Sees outcome o = ((o.value ≡ none) × (o.closed ≡ false)) ⊎ (o.value ≡ some outcome)

  -- Whenever they look, the observers of a channel on which one outcome is ever sent, before its
  -- sender goes, get that outcome or wait still; none of them makes up `Aborted`. An observer whose
  -- last round sees the outcome gets it.
  pub wait-Sees :
      (outcome : Outcome E) (rounds : List (Observed E)) (last : Observed E)
      → All (Sees outcome) rounds
      → last.value ≡ some outcome
      → ((wait rounds ≡ none) ⊎ (wait rounds ≡ some outcome))
        × (wait (rounds ++ last ∷ []) ≡ some outcome)
  unfolding wait
  wait-Sees outcome [] last h e = (inl refl, ground arith)
  wait-Sees outcome (o ∷ rounds) last h e = ground (arith, wait-Sees outcome rounds last h.1)
