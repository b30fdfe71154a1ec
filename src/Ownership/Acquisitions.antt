-- ===== src/Ownership/Acquisitions.antt =====
-- src/domain.rs, `claim`, and src/context.rs, `all` and `create` after the build, as runs of the steps.
use resourcery.Base.{
  ℕ, ◌+◌, ◌%◌, ◌^◌, ◌≡◌, refl, ap, sym, subst, ◌∙◌, arith, inl, inr, Bool, true, false, Option,
  none, some, List, [], ◌∷◌, ◌++◌, ==_refl, if◌then◌else◌, Bool-cases, Option-cases,
}
use resourcery.World.{Program, World, SlotState, starting, active}
use resourcery.Domain.{is_accepting}
use resourcery.Reference.{drop_ref, acquire_entry}
use resourcery.Registry.{
  Claim, active_entry, owner, wait, occupied, closed, slot, set_slot, claim, claim_vacant,
  claim_active, claim_occupied, live_snapshot,
}
use resourcery.Context.{all, acquire_each}
use resourcery.Moves.{reclaims, opens}
use resourcery.Moves.Operations.{acquire_entry-Dead, slots-acquire_entry}
use resourcery.Ownership.{State, Reach, after, drops, reorders, elsewhere, freed}
use resourcery.Ownership.Counts.{count-append}
use resourcery.Ownership.Operations.{with_refs, gained, Kept, acquire-Kept}

-- The reference that a claim gives out.
abbrev pub claim_ref : Claim → Option ℕ
claim_ref (active_entry g) = some g
claim_ref _ = none

module _ {P : Program} where
  abbrev pub OwnsClaim : State P → World P × Claim → Type 0
  OwnsClaim a (w, c) = Reach (with_refs a w (gained (claim_ref c) a.outside))

  Kept-true :
      (a : State P) (g : ℕ) (p : World P × Bool)
      → Kept a g p
      → p.1 ≡ true
      → Reach (with_refs a p.0 (g ∷ a.outside))
  Kept-true a g (w, true) k e = k
  Kept-true a g (w, false) k e = cc

  Kept-false :
      (a : State P) (g : ℕ) (p : World P × Bool)
      → Kept a g p
      → p.1 ≡ false
      → Reach (with_refs a p.0 a.outside)
  Kept-false a g (w, true) k e = cc
  Kept-false a g (w, false) k e = k

  -- The lease of an acquired entry is not the only one.
  freed-acquired :
      (retains : ℕ → List ℕ) (w : World P) (g : ℕ)
      → (acquire_entry w g).1 ≡ true
      → freed retains (acquire_entry w g).0 g ≡ []
  unfolding acquire_entry
  freed-acquired retains w g e = ground (arith, ==_refl g)

  given_back :
      (a : State P)
      → Reach a
      → (g : ℕ) → (acquire_entry a.world g).1 ≡ true
      → Reach (with_refs a (drop_ref (acquire_entry a.world g).0 g) a.outside)
  given_back a r g e =
      let w = (acquire_entry a.world g).0 in
      subst (λ (xs : List ℕ). Reach (with_refs a (drop_ref w g) (xs ++ a.outside)))
        (freed-acquired a.retains a.world g e)
        (after (Kept-true a g (acquire_entry a.world g) (acquire-Kept r g) e)
          (drops g a.outside (λ k. refl) refl))

  claim_acquired :
      (a : State P)
      → Reach a
      → (s n g : ℕ) (create_only : Bool) → (acquire_entry a.world g).1 ≡ true
      → OwnsClaim a (claim_active a.world s n g create_only)
  unfolding claim_active
  claim_acquired a r s n g true q =
      let w = (acquire_entry a.world g).0 in
      let result : claim_active a.world s n g true ≡ (drop_ref w g, occupied) = rw q in
      subst (OwnsClaim a) (sym result) (given_back a r g q)
  claim_acquired a r s n g false q =
      let w = (acquire_entry a.world g).0 in
      let result : claim_active a.world s n g false ≡ (w, active_entry g) = rw q in
      subst (OwnsClaim a) (sym result)
        (Kept-true a g (acquire_entry a.world g) (acquire-Kept r g) q)

  claim_expired :
      (a : State P)
      → Reach a
      → (s n g : ℕ) (create_only : Bool) → a.world.slots s ≡ active n g
      → (acquire_entry a.world g).1 ≡ false
      → OwnsClaim a (claim_active a.world s n g create_only)
  unfolding claim_active
  claim_expired a r s n g create_only at q =
      let w = (acquire_entry a.world g).0 in
      let kept = Kept-false a g (acquire_entry a.world g) (acquire-Kept r g) q in
      elim (Bool-cases (is_accepting w)) [
        | inl o ↦
            let m = (n + 1) % 2 ^ 64 in
            let u = set_slot w s (starting m) in
            let result : claim_active a.world s n g create_only ≡ (u, owner s m) = rw (q, o) in
            let slots = ap (λ (f : ℕ → SlotState). f s) (slots-acquire_entry a.world g) ∙ at in
            let dead = acquire_entry-Dead a.world g q o in
            subst (OwnsClaim a) (sym result)
              (after kept (elsewhere (reclaims s n g o slots dead refl) tt refl))
        | inr c ↦
            let result : claim_active a.world s n g create_only ≡ (w, closed) = rw (q, c) in
            subst (OwnsClaim a) (sym result) kept
      ]

  claim_occupied-Owns :
      (a : State P)
      → Reach a
      → (s : ℕ) (create_only : Bool) (state : SlotState) → a.world.slots s ≡ state
      → OwnsClaim a (claim_occupied a.world s create_only)
  unfolding claim_occupied
  claim_occupied-Owns a r s create_only (starting n) e =
      let result : claim_occupied a.world s create_only ≡ (a.world, wait s) =
        rw (e, claim_occupied) in
      subst (OwnsClaim a) (sym result) r
  claim_occupied-Owns a r s create_only (active n g) e =
      let result : claim_occupied a.world s create_only ≡ claim_active a.world s n g create_only =
        rw (e, claim_occupied) in
      subst (OwnsClaim a) (sym result) (elim (Bool-cases (acquire_entry a.world g).1) [
        | inl q ↦ claim_acquired a r s n g create_only q
        | inr q ↦ claim_expired a r s n g create_only e q
      ])

  -- The claim of a vacant entry gives out no reference.
  claim_vacant-none :
      (w : World P) (t : ℕ) (key : P.Key) → claim_ref (claim_vacant w t key).1 ≡ none
  unfolding claim_vacant
  claim_vacant-none w t key = ground arith

  claim_vacant-Owns :
      (a : State P)
      → Reach a
      → (t : ℕ) (key : P.Key) → slot a.world t key ≡ none
      → OwnsClaim a (claim_vacant a.world t key)
  claim_vacant-Owns a r t key e =
      let w = (claim_vacant a.world t key).0 in
      subst (λ (o : Option ℕ). Reach (with_refs a w (gained o a.outside)))
        (sym (claim_vacant-none a.world t key)) (after r (elsewhere (opens t key e refl) tt refl))

  pub claim-Owns :
      (a : State P)
      → Reach a
      → (t : ℕ) (key : P.Key) (create_only : Bool) → OwnsClaim a (claim a.world t key create_only)
  unfolding claim
  claim-Owns a r t key create_only = elim (Option-cases (slot a.world t key)) [
    | inl e ↦
        let result : claim a.world t key create_only ≡ claim_vacant a.world t key = rw (e, claim) in
        subst (OwnsClaim a) (sym result) (claim_vacant-Owns a r t key e)
    | inr (s, e) ↦
        let result : claim a.world t key create_only ≡ claim_occupied a.world s create_only =
          rw (e, claim) in
        subst (OwnsClaim a) (sym result)
          (claim_occupied-Owns a r s create_only (a.world.slots s) refl)
  ]

  -- What the snapshot's entries give out.
  each-Owns :
      (a : State P)
      → Reach a
      → (gs : List ℕ)
      → Reach (with_refs a (acquire_each a.world gs).0 ((acquire_each a.world gs).1 ++ a.outside))
  unfolding acquire_each
  each-Owns a r [] = r
  each-Owns a r (g ∷ gs) =
      let p = acquire_entry a.world g in
      let w = (acquire_each p.0 gs).0 in
      let refs = (acquire_each p.0 gs).1 in
      elim (Bool-cases p.1) [
        | inl q ↦
            let more =
              each-Owns (with_refs a p.0 (g ∷ a.outside)) (Kept-true a g p (acquire-Kept r g) q)
                gs in
            subst
              (λ (b : Bool). Reach (with_refs a w ((if b then g ∷ refs else refs) ++ a.outside)))
              (sym q)
              (after more (
                reorders (g ∷ refs ++ a.outside)
                  (λ k.
                    ground
                      (arith, count-append k refs (g ∷ a.outside), count-append k refs a.outside))
                  refl))
        | inr q ↦
            subst
              (λ (b : Bool). Reach (with_refs a w ((if b then g ∷ refs else refs) ++ a.outside)))
              (sym q)
              (each-Owns (with_refs a p.0 a.outside) (Kept-false a g p (acquire-Kept r g) q) gs)
      ]

  pub all-Owns :
      (a : State P)
      → Reach a
      → (t : ℕ) → Reach (with_refs a (all a.world t).0 ((all a.world t).1 ++ a.outside))
  unfolding all
  all-Owns a r t = each-Owns a r (live_snapshot a.world t)
