-- ===== src/Supervision/Quiescence.antt =====
-- src/domain.rs and src/context.rs: what a terminated domain has behind it.
use resourcery.Base.{ℕ, suc, ◌^◌, ◌<◌, ◌≡◌, refl, ◌∙◌, ap, inl, inr, ◌⊎◌, some, [], ◌∷◌, arith}
use resourcery.Lifecycle
use resourcery.World.{Program, Outcome, terminated}
use resourcery.Domain.{control}
use resourcery.Context.Settled.{outcomes}
use resourcery.Context.{outcome_of}
use resourcery.Supervision.{
  Duty, absent, registered, watching, finished, cleaned, published, unlisted, retired, State, Step,
  elsewhere, creates, spawns, ends, cleans, skips, publishes, delists, retires, Reach, begin, after,
}
use resourcery.Supervision.Invariant.{Inv, Inv-initial, task_id, sent, settled}
use resourcery.Supervision.Steps.{Move-Plain, Plain-Inv}
use resourcery.Supervision.Duties.{
  spawns-Inv, ends-Inv, cleans-Inv, skips-Inv, publishes-Inv, delists-Inv, retires-Inv,
}
use resourcery.Supervision.Creation.{creates-Inv}

module _ {P : Program} where
  pub Step-Inv :
      {k : ℕ} {a b : State P}
      → suc (suc k) < 2 ^ 64
      → Step a b
      → Inv k a.world a.duties
      → Inv (suc k) b.world b.duties
  Step-Inv h (elsewhere m q e) v = rw e (Plain-Inv (omega arith) (Move-Plain m q) v)
  Step-Inv h (creates t f i e) v = rw e (creates-Inv v t f i h)
  Step-Inv h (spawns g id d e) v = rw e (spawns-Inv v g id d)
  Step-Inv h (ends g id joined d e) v = rw e (ends-Inv v g id (outcome_of joined) d)
  Step-Inv h (cleans g id outcome d e) v = rw e (cleans-Inv v g id outcome d)
  Step-Inv h (skips g id outcome d e) v = rw e (skips-Inv v g id outcome d)
  Step-Inv h (publishes g id outcome d e) v = rw e (publishes-Inv v g id outcome d)
  Step-Inv h (delists g id t outcome d e) v = rw e (delists-Inv v g id t outcome d)
  Step-Inv h (retires g id outcome d e) v = rw e (retires-Inv v g id outcome d)

  pub Reach-Inv : {k : ℕ} {a : State P} → Reach k a → suc k < 2 ^ 64 → Inv k a.world a.duties
  Reach-Inv begin h = Inv-initial
  Reach-Inv (after {k} r s) h = Step-Inv h s (Reach-Inv r (omega arith))

  -- A supervisor that was never there, or that is done with its one outcome.
  abbrev pub Concluded : State P → ℕ → Type 0
  Concluded a g =
      ((a.duties g ≡ absent) × (outcomes g a.world.calls ≡ []))
      ⊎ ((outcome : Outcome P.Error) × (a.duties g ≡ retired outcome)
          × (outcomes g a.world.calls ≡ outcome ∷ [])
          × ((control a.world g).phase ≡ Lifecycle.finished))

  no-task :
      {k : ℕ} {a : State P}
      → Inv k a.world a.duties
      → a.world.tasks ≡ []
      → (g id : ℕ) → ¬ (task_id (a.duties g) ≡ some id)
  no-task v e g id d = ground (arith, v.listed id g d)

  concluded :
      {k : ℕ} {a : State P}
      → Inv k a.world a.duties
      → a.world.tasks ≡ []
      → (g : ℕ) (duty : Duty P.Error) → a.duties g ≡ duty
      → Concluded a g
  concluded {k} {a} v e g absent d = inl (d, v.reported g ∙ ap sent d)
  concluded {k} {a} v e g (retired outcome) d =
      inr (outcome, d, v.reported g ∙ ap sent d, v.over g outcome (ap settled d))
  concluded {k} {a} v e g (registered id) d = absurd (no-task v e g id (ap task_id d))
  concluded {k} {a} v e g (watching id) d = absurd (no-task v e g id (ap task_id d))
  concluded {k} {a} v e g (finished id outcome) d = absurd (no-task v e g id (ap task_id d))
  concluded {k} {a} v e g (cleaned id outcome) d = absurd (no-task v e g id (ap task_id d))
  concluded {k} {a} v e g (published id outcome) d = absurd (no-task v e g id (ap task_id d))
  concluded {k} {a} v e g (unlisted id outcome) d = absurd (no-task v e g id (ap task_id d))

  -- When the domain is terminated, in any interleaving of fewer than 2 ^ 64 - 1 steps, every
  -- supervisor that was ever made is done: it has published exactly one outcome for its generation,
  -- whose control is finished, and dropped its finalizer. No outcome was published for any other.
  pub Reach-Concluded :
      {k : ℕ} {a : State P}
      → Reach k a
      → suc k < 2 ^ 64
      → a.world.phase ≡ terminated
      → (g : ℕ) → Concluded a g
  Reach-Concluded {a = a} r h e g =
      let v = Reach-Inv r h in concluded v (v.quiet e) g (a.duties g) refl
