-- ===== src/Supervision/Steps.antt =====
-- Every step of the supervisors, and of the threads among them, keeps the invariant.
use resourcery.Base.{
  ℕ, suc, ◌≤◌, ◌≡◌, refl, ◌∙◌, inl, inr, Option, none, some, [], arith, ==_iff, update,
}
use resourcery.Lifecycle
use resourcery.Lifecycle.{Token}
use resourcery.World.{Program, Cleanup, World, Outcome, terminated}
use resourcery.Domain.{control, cancel_control, cancel_locked}
use resourcery.Registry.{remove_if_same}
use resourcery.Registry.Cases.{remove_if_same_cases, claim_vacant_cases}
use resourcery.Context.{run_cleanup}
use resourcery.Context.Settled.{outcomes}
use resourcery.Moves.{
  Move, registers, closes, shuts, cancels, finishes, leases, releases, reclaims, opens, installs,
  removes, lists, unlists, allocates, supervises, calls_out,
}
use resourcery.Supervision.{Duty, Elsewhere}
use resourcery.Supervision.Invariant.{Inv, task_id, sent, settled}

module _ {P : Program} where
  -- The step leaves the tasks and the outcomes alone, and no finished control is changed.
  pub record Plain (w u : World P) : Type 0 where
    pub tasks : u.tasks ≡ w.tasks
    pub next_task : u.next_task ≡ w.next_task
    pub next_generation : u.next_generation ≡ w.next_generation
    pub quiet : (w.phase ≡ terminated → w.tasks ≡ []) → u.phase ≡ terminated → u.tasks ≡ []
    pub said : (g : ℕ) → outcomes g u.calls ≡ outcomes g w.calls
    pub over :
        (g : ℕ)
        → (control w g).phase ≡ Lifecycle.finished
        → (control u g).phase ≡ Lifecycle.finished

  Plain-refl : (w : World P) → Plain w w
  Plain-refl w = record {
    tasks = refl;
    next_task = refl;
    next_generation = refl;
    quiet = λ q. q;
    said = λ g. refl;
    over = λ g f. f;
  }

  cancel_control-Plain : (w : World P) (g : ℕ) → Plain w (cancel_control w g)
  unfolding cancel_control Lifecycle.cancel
  cancel_control-Plain w g = record {
    tasks = refl;
    next_task = refl;
    next_generation = refl;
    quiet = λ q. q;
    said = λ h. ground arith;
    over = λ h f. ground arith;
  }

  cancel_locked-Plain : (w : World P) → Plain w (cancel_locked w).0
  unfolding cancel_locked
  cancel_locked-Plain w = record {
    tasks = ground arith;
    next_task = ground arith;
    next_generation = ground arith;
    quiet = λ q e. ground arith;
    said = λ h. ground arith;
    over = λ h f. ground arith;
  }

  remove_if_same-Plain :
      (w : World P) (t : ℕ) (key : P.Key) (s n : ℕ) → Plain w (remove_if_same w t key s n)
  remove_if_same-Plain w t key s n = elim (remove_if_same_cases w t key s n) [
    | inl q ↦ rw q (Plain-refl w)
    | inr (a, b, q) ↦ rw q (record {
      tasks = refl;
      next_task = refl;
      next_generation = refl;
      quiet = λ q. q;
      said = λ g. refl;
      over = λ g f. f;
    })
  ]

  pub run_cleanup-Plain : (w : World P) (f : Option (Cleanup P)) → Plain w (run_cleanup w f)
  unfolding run_cleanup
  run_cleanup-Plain w none = Plain-refl w
  run_cleanup-Plain w (some c) = remove_if_same-Plain w c.type_id c.key c.slot c.generation

  pub Move-Plain : {w u : World P} (m : Move w u) → Elsewhere m → Plain w u
  Move-Plain {w} (shuts e) q = rw e (cancel_locked-Plain w)
  Move-Plain {w} (cancels g h e) q = rw e (cancel_control-Plain w g)
  Move-Plain {w} (leases g n h e) q = rw e (record {
    tasks = refl;
    next_task = refl;
    next_generation = refl;
    quiet = λ q. q;
    said = λ j. refl;
    over = λ j f. ground arith;
  })
  Move-Plain {w} (releases g n h e) q = rw e (record {
    tasks = refl;
    next_task = refl;
    next_generation = refl;
    quiet = λ q. q;
    said = λ j. refl;
    over = λ j f. ground arith;
  })
  Move-Plain {w} (reclaims s n g a h d e) q = rw e (record {
    tasks = refl;
    next_task = refl;
    next_generation = refl;
    quiet = λ q. q;
    said = λ j. refl;
    over = λ j f. f;
  })
  Move-Plain {w} (opens t key h e) q = rw e (elim (claim_vacant_cases w t key) [
    | inl (a, r) ↦ rw r (Plain-refl w)
    | inr (a, r) ↦ rw r (record {
      tasks = refl;
      next_task = refl;
      next_generation = refl;
      quiet = λ q. q;
      said = λ j. refl;
      over = λ j f. f;
    })
  ])
  Move-Plain {w} (installs c g e) q = rw e (record {
    tasks = refl;
    next_task = refl;
    next_generation = refl;
    quiet = λ q. q;
    said = λ j. refl;
    over = λ j f. f;
  })
  Move-Plain {w} (removes t key s n e) q = rw e (remove_if_same-Plain w t key s n)
  Move-Plain {w} (calls_out c h e) q = rw e (record {
    tasks = refl;
    next_task = refl;
    next_generation = refl;
    quiet = λ q. q;
    said = λ j. ground arith;
    over = λ j f. f;
  })
  Move-Plain (registers g h e) q = absurd q
  Move-Plain (closes id e) q = absurd q
  Move-Plain (finishes g h e) q = absurd q
  Move-Plain (lists t id g e) q = absurd q
  Move-Plain (unlists t id e) q = absurd q
  Move-Plain (allocates t f i e) q = absurd q
  Move-Plain (supervises g id h e) q = absurd q

  -- A plain change of the world, and no change of the supervisors.
  pub Plain-Inv :
      {k m : ℕ} {w u : World P} {duties : ℕ → Duty P.Error}
      → k ≤ m
      → Plain w u
      → Inv k w duties
      → Inv m u duties
  Plain-Inv le p v = record {
    few = ground (arith, p.next_task, v.few);
    quiet = p.quiet v.quiet;
    fresh = λ g h. ground (arith, v.fresh g, p.next_generation);
    known = λ id g e. ground (arith, p.tasks, p.next_task, v.known id g);
    watched = λ id g e. ground (arith, p.tasks, v.watched id g);
    listed = λ id g e. ground (arith, p.tasks, v.listed id g);
    reported = λ g. p.said g ∙ v.reported g;
    over = λ g o e. p.over g (v.over g o e);
  }

  -- A supervisor goes on, with its task.
  pub duty-Inv :
      {k : ℕ} {w : World P} {duties : ℕ → Duty P.Error}
      → Inv k w duties
      → (g id : ℕ) (duty : Duty P.Error) → task_id (duties g) ≡ some id
      → task_id duty ≡ some id
      → sent duty ≡ sent (duties g)
      → ((outcome : Outcome P.Error)
          → settled duty ≡ some outcome
          → (control w g).phase ≡ Lifecycle.finished)
      → Inv (suc k) w (update duties g duty)
  duty-Inv v g id duty old new same over = record {
    few = ground (arith, v.few);
    quiet = v.quiet;
    fresh = λ h l. ground (arith, v.fresh h l, v.fresh g, ==_iff g h);
    known = v.known;
    watched = λ i h e. ground (arith, v.watched i h e, ==_iff g h);
    listed = λ i h e. ground (arith, v.listed i h, v.listed id g old, ==_iff g h);
    reported = λ h. ground (arith, v.reported h, ==_iff g h);
    over = λ h o e. ground (arith, v.over h o, over o, ==_iff g h);
  }
