-- ===== src/Ownership/Creations.antt =====
-- src/context.rs, `create` after the build, as a run of the steps.
use resourcery.Base.{
  ℕ, ◌<◌, ◌≡◌, refl, sym, subst, arith, inl, inr, Option, none, some, List, ◌∷◌, ◌++◌, ==_refl,
  ==_iff, Bool-cases, Option-cases, update,
}
use resourcery.World.{Program, World, Cleanup, abort}
use resourcery.Domain.{is_accepting, register, register_locked, cancel_control}
use resourcery.Reference.{strong, drop_ref}
use resourcery.Registry.{insert_live}
use resourcery.Context.{establish, allocate, set_generation, Result, ok, err, shutting_down}
use resourcery.Moves.{registers, cancels, calls_out, supervises, lists}
use resourcery.Ownership.{State, Reach, after, creates, drops, elsewhere, freed, Same}

-- What is held outside, once a creation is over: the reference to the new generation, or those that
-- its interface would have retained.
abbrev pub settled_refs : Result ℕ → List ℕ → List ℕ → List ℕ
settled_refs (ok g) refs rest = g ∷ rest
settled_refs (err e) refs rest = refs ++ rest

module _ {P : Program} where
  next_generation-register :
      (w : World P) (g : ℕ) → (register w g).0.next_generation ≡ w.next_generation
  unfolding register register_locked
  next_generation-register w g = ground arith

  strong-register : (w : World P) (g k : ℕ) → strong (register w g).0 k ≡ strong w k
  unfolding register register_locked
  strong-register w g k = ground (arith, ==_iff g k)

  register-Reach :
      (a : State P)
      → Reach a
      → (g : ℕ) → g < a.world.next_generation
      → Reach (record a { world = (register a.world g).0 })
  unfolding register
  register-Reach a r g l = elim (Bool-cases (is_accepting a.world)) [
    | inl e ↦
        let result : register a.world g ≡ register_locked a.world g = rw (e, register) in
        subst (λ (p : World P × Option ℕ). Reach (record a { world = p.0 })) (sym result)
          (after r (elsewhere (registers g l refl) tt refl))
    | inr e ↦
        let result : register a.world g ≡ (a.world, none) = rw (e, register) in
        subst (λ (p : World P × Option ℕ). Reach (record a { world = p.0 })) (sym result) r
  ]

  -- The references that stay and the state, once an entry was made for an interface that retains
  -- some of them.
  module _ (a : State P) (r : Reach a) (t : ℕ) (f : Option (Cleanup P)) (i : P.Interface)
      (refs rest : List ℕ) (s : Same a.outside (refs ++ rest)) where
    abbrev pub g : ℕ
    g = a.world.next_generation

    abbrev entered : World P
    entered = allocate a.world t f i

    abbrev pub holding : World P → List ℕ → State P
    holding w xs = record { world = w; retains = update a.retains g refs; outside = xs }

    known : g < entered.next_generation
    unfolding allocate
    known = omega arith

    tried : Reach (holding (register entered g).0 (g ∷ rest))
    tried =
        register-Reach (holding entered (g ∷ rest)) (after r (creates t f i refs rest s refl)) g
          known

    still_known : g < (register entered g).0.next_generation
    still_known = omega (arith, known, next_generation-register entered g)

    -- The entry is dropped, and then what its interface would have retained.
    rejected :
        (w : World P)
        → strong w g ≡ 1
        → Reach (holding w (g ∷ rest))
        → Reach (holding (drop_ref w g) (refs ++ rest))
    rejected w one q =
        let all_freed : freed (update a.retains g refs) w g ≡ refs = ground (arith, ==_refl g) in
        subst (λ (xs : List ℕ). Reach (holding (drop_ref w g) (xs ++ rest))) all_freed
          (after q (drops g rest (λ k. refl) refl))

    abbrev aborted : World P
    aborted = record (register entered g).0 { calls = abort g ∷ (register entered g).0.calls }

    strong-aborted : strong (cancel_control aborted g) g ≡ 1
    unfolding cancel_control allocate
    strong-aborted = ground (arith, ==_refl g, strong-register entered g g)

    abbrev pub Made : World P × Result ℕ → Type 0
    Made (w, result) = Reach (holding w (settled_refs result refs rest))

    pub establish-Made : Made (establish a.world t f i)
    unfolding establish
    establish-Made = elim (Option-cases (register entered g).1) [
      | inl e ↦
          let w = cancel_control aborted g in
          let result : establish a.world t f i ≡ (drop_ref w g, err shutting_down) =
            rw (e, establish) in
          let one = after tried (elsewhere (calls_out (abort g) refl refl) tt refl) in
          let two = after one (elsewhere (cancels g still_known refl) tt refl) in
          subst Made (sym result) (rejected w strong-aborted two)
      | inr (id, e) ↦
          let u = (register entered g).0 in
          let v = set_generation u g (record (u.generations g) { task_id = some id }) in
          let result : establish a.world t f i ≡ (insert_live v t id g, ok g) = rw (e, establish) in
          let one = after tried (elsewhere (supervises g id still_known refl) tt refl) in
          subst Made (sym result) (after one (elsewhere (lists t id g refl) tt refl))
    ]
