-- ===== src/Moves/Operations/Contexts.antt =====
-- src/context.rs: construction, supervision, acquisition and discovery.
use resourcery.Base.{
  ℕ, ◌<◌, ◌≡◌, refl, ◌⊎◌, inl, inr, true, false, Option, none, some, arith, Option-cases,
}
use resourcery.World.{Program, Cleanup, World, abort, start, notify_slot, publish}
use resourcery.Domain.{Meanwhile, is_accepting, register}
use resourcery.Context.{
  Pauses, AcquireError, Result, ok, err, Built, panics, spec, allocate, establish, create,
  create_and_start, Joined, finish_control, run_cleanup, retire, supervise, outcome_of, Guard,
  drop_guard, install, conclude, finish_canonical_creation,
}
use resourcery.Moves.{
  Moves, here, next, one, chain, branch, choose, cancels, finishes, closes, installs, removes,
  lists, unlists, allocates, supervises, calls_out,
}
use resourcery.Moves.Invariant.{Inv}
use resourcery.Moves.Forward.{Moves-Forward}
use resourcery.Moves.Preservation.{Moves-Inv}
use resourcery.Moves.Operations.Leases.{drop_ref-Moves}
use resourcery.Moves.Operations.Domains.{Acts, register-Moves}

Result-cases :
    {A : Type 0} (r : Result A) → ((a : A) × (r ≡ ok a)) ⊎ ((e : AcquireError) × (r ≡ err e))
Result-cases (ok a) = inl (a, refl)
Result-cases (err e) = inr (e, refl)

module _ {P : Program} where
  -- The generation under construction stays in use.
  known-after :
      {w u : World P} → Moves w u → (g : ℕ) → g < w.next_generation → g < u.next_generation
  known-after p g h = omega (arith, (Moves-Forward p).next_generation)

  allocated :
      (w : World P) (t : ℕ) (f : Option (Cleanup P)) (i : P.Interface)
      → w.next_generation < (allocate w t f i).next_generation
  unfolding allocate
  allocated w t f i = omega arith

  pub establish-Moves :
      {w : World P}
      → Inv w
      → (t : ℕ) (f : Option (Cleanup P)) (i : P.Interface) → Moves w (establish w t f i).0
  unfolding establish
  establish-Moves {w} v t f i =
      let g = w.next_generation in
      let a = allocate w t f i in
      let r = register-Moves {w = a} g (allocated w t f i) in
      let q = chain (one (allocates t f i refl)) r in
      let known = known-after r g (allocated w t f i) in
      elim (Option-cases (register a g).1) [
        | inl e ↦
            rw (e, establish)
              (let c = next (next q (calls_out (abort g) refl refl)) (cancels g known refl) in
                chain c (drop_ref-Moves (Moves-Inv c v) g))
        | inr (id, e) ↦
            rw (e, establish) (next (next q (supervises g id known refl)) (lists t id g refl))
      ]

  pub create-Moves :
      {w : World P}
      → Inv w
      → (t : ℕ) (f : Option (Cleanup P)) (others : Meanwhile P) (built : Built P.Interface)
      → Acts others
      → Moves w (create w t f others built).0
  unfolding create
  create-Moves {w} v t f others panics acts = branch (is_accepting w) _ _ (λ _. acts w) (λ _. here)
  create-Moves {w} v t f others (spec i) acts =
      branch (is_accepting w) _ _
        (λ _. chain (acts w) (establish-Moves (Moves-Inv (acts w) v) t f i)) (λ _. here)

  pub create_and_start-Moves :
      {w : World P}
      → Inv w
      → (t : ℕ) (f : Option (Cleanup P)) (others : Meanwhile P) (built : Built P.Interface)
      → Acts others
      → Moves w (create_and_start w t f others built).0
  unfolding create_and_start
  create_and_start-Moves {w} v t f others built acts =
      let p = create-Moves v t f others built acts in
      elim (Result-cases (create w t f others built).1) [
        | inl (g, e) ↦ rw (e, create_and_start) (next p (calls_out (start g) refl refl))
        | inr (x, e) ↦ rw (e, create_and_start) p
      ]

  pub drop_guard-Moves : (w : World P) (guard : Guard P) → Moves w (drop_guard w guard)
  unfolding drop_guard
  drop_guard-Moves w guard =
      choose guard.armed _ _
        (λ _.
          next
            (one (
              removes guard.target.type_id guard.target.key guard.target.slot
                guard.target.generation refl))
            (calls_out (notify_slot guard.target.slot) refl refl))
        (λ _. here)

  -- The rest of the program acts by the atomic actions at both points of a construction.
  abbrev pub ActsIn : Pauses P → Type 0
  ActsIn others = Acts others.building × Acts others.registered

  install-Moves : {w : World P} → Inv w → (c : Cleanup P) (g : ℕ) → Moves w (install w c g).0
  unfolding install
  install-Moves {w} v c g =
      branch (is_accepting w) _ _
        (λ _.
          chain
            (next (next (one (installs c g refl)) (calls_out (notify_slot c.slot) refl refl))
              (calls_out (start g) refl refl))
            (drop_guard-Moves _ (record { target = c; armed = false })))
        (λ _.
          let p = one (calls_out (start g) refl refl) in
          let q = chain p (drop_ref-Moves (Moves-Inv p v) g) in
          chain q (drop_guard-Moves _ (record { target = c; armed = true })))

  conclude-Moves :
      {w : World P} (c : Cleanup P) (others : Meanwhile P) (r : World P × Result ℕ)
      → Acts others
      → Inv r.0
      → Moves w r.0
      → Moves w (conclude c others r).0
  unfolding conclude
  conclude-Moves c others (u, ok g) acts v p =
      chain (chain p (acts u)) (install-Moves (Moves-Inv (acts u) v) c g)
  conclude-Moves c others (u, err e) acts v p =
      chain p (drop_guard-Moves u (record { target = c; armed = true }))

  pub finish_canonical_creation-Moves :
      {w : World P}
      → Inv w
      → (c : Cleanup P) (others : Pauses P) (built : Built P.Interface) → ActsIn others
      → Moves w (finish_canonical_creation w c others built).0
  unfolding finish_canonical_creation
  finish_canonical_creation-Moves {w} v c others built acts =
      let p = create-Moves v c.type_id (some c) others.building built acts.0 in
      conclude-Moves c others.registered (create w c.type_id (some c) others.building built) acts.1
        (Moves-Inv p v) p

  run_cleanup-Moves : (w : World P) (f : Option (Cleanup P)) → Moves w (run_cleanup w f)
  unfolding run_cleanup
  run_cleanup-Moves w none = here
  run_cleanup-Moves w (some c) = one (removes c.type_id c.key c.slot c.generation refl)

  retire-Moves : (w : World P) (t : ℕ) (id : Option ℕ) → Moves w (retire w t id)
  unfolding retire
  retire-Moves w t none = here
  retire-Moves w t (some id) = next (one (unlists t id refl)) (closes id refl)

  -- What the supervisor of an allocated generation does, from the end of its task on, is a chain of
  -- the atomic actions, however the task ended.
  pub supervise-Moves :
      {w : World P} (g : ℕ) (joined : Joined P.Error)
      → g < w.next_generation
      → Moves w (supervise w g joined)
  unfolding supervise
  supervise-Moves {w} g joined h =
      let p = chain (one (finishes g h refl)) (run_cleanup-Moves (finish_control w g) _) in
      chain (next p (calls_out (publish g (outcome_of joined)) refl refl)) (retire-Moves _ _ _)
