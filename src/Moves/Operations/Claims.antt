-- ===== src/Moves/Operations/Claims.antt =====
-- src/domain.rs: claims.
use resourcery.Base.{ℕ, ◌≡◌, refl, ◌∙◌, ap, inl, inr, Bool, Bool-cases, Option-cases}
use resourcery.World.{Program, World, SlotState, starting, active}
use resourcery.Domain.{is_accepting}
use resourcery.Reference.{acquire_entry}
use resourcery.Registry.{slot, claim_active, claim_occupied, claim}
use resourcery.Moves.{Moves, here, next, one, chain, reclaims, opens}
use resourcery.Moves.Invariant.{Inv}
use resourcery.Moves.Preservation.{Moves-Inv}
use resourcery.Moves.Operations.Leases.{
  drop_ref-Moves, acquire_entry-Moves, acquire_entry-Dead, slots-acquire_entry,
}

module _ {P : Program} where
  claim_active-Moves :
      {w : World P}
      → Inv w
      → (s n g : ℕ) (create_only : Bool) → w.slots s ≡ active n g
      → Moves w (claim_active w s n g create_only).0
  unfolding claim_active
  claim_active-Moves {w} v s n g create_only at =
      let tried = acquire_entry-Moves v g in
      elim (Bool-cases (acquire_entry w g).1) [
        | inl a ↦ elim (Bool-cases create_only) [
          | inl c ↦ rw (a, c) (chain tried (drop_ref-Moves (Moves-Inv tried v) g))
          | inr c ↦ rw (a, c) tried
        ]
        | inr a ↦ elim (Bool-cases (is_accepting (acquire_entry w g).0)) [
          | inl open_ ↦
              rw (a, open_)
                (next tried (
                  reclaims s n g open_ (ap (λ f. f s) (slots-acquire_entry w g) ∙ at)
                    (acquire_entry-Dead w g a open_) refl))
          | inr shut ↦ rw (a, shut) tried
        ]
      ]

  claim_occupied-at :
      {w : World P}
      → Inv w
      → (s : ℕ) (create_only : Bool) (state : SlotState) → w.slots s ≡ state
      → Moves w (claim_occupied w s create_only).0
  unfolding claim_occupied
  claim_occupied-at v s create_only (starting n) e = rw (e, claim_occupied) here
  claim_occupied-at v s create_only (active n g) e =
      rw (e, claim_occupied) (claim_active-Moves v s n g create_only e)

  pub claim-Moves :
      {w : World P}
      → Inv w
      → (t : ℕ) (key : P.Key) (create_only : Bool) → Moves w (claim w t key create_only).0
  unfolding claim
  claim-Moves {w} v t key create_only = elim (Option-cases (slot w t key)) [
    | inl e ↦ rw (e, claim) (one (opens t key e refl))
    | inr (s, e) ↦ rw (e, claim) (claim_occupied-at v s create_only (w.slots s) refl)
  ]
