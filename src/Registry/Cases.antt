-- ===== src/Registry/Cases.antt =====
-- src/domain.rs: the outcomes of `remove_if_same` and of a claim at a vacant entry, and what they
-- do to the slots of the identities.
use resourcery.Base.{ℕ, ◌+◌, ◌≡◌, ◌⊎◌, true, false, none, some, arith, ite, ◌==◌, if◌then◌else◌}
use resourcery.World.{Program, World, starting}
use resourcery.Domain.{is_accepting}
use resourcery.Registry.{
  owner, closed, slot, set_slot, set_slot_of, claim_vacant, has_generation, remove_if_same,
}

module _ {P : Program} (w : World P) (t : ℕ) (key : P.Key) where
  -- The world with the identity's map entry gone.
  abbrev pub detached : World P
  detached = set_slot_of w t (P.entries.remove (w.registries t).slot_of key)

  -- The world with a new slot at the identity's map entry.
  abbrev pub opened : World P
  opened =
      let w' = set_slot w w.next_slot (starting 1) in
      record (set_slot_of w' t (P.entries.insert (w.registries t).slot_of key w.next_slot)) {
        next_slot = w.next_slot + 1;
      }

  pub remove_if_same_cases :
      (s n : ℕ)
      → (remove_if_same w t key s n ≡ w)
        ⊎ ((slot w t key ≡ some s)
            × (has_generation w s n ≡ true)
            × (remove_if_same w t key s n ≡ detached))
  unfolding remove_if_same
  remove_if_same_cases s n = ground arith

  pub claim_vacant_cases :
      ((is_accepting w ≡ false) × (claim_vacant w t key ≡ (w, closed)))
      ⊎ ((is_accepting w ≡ true) × (claim_vacant w t key ≡ (opened, owner w.next_slot 1)))
  unfolding claim_vacant
  claim_vacant_cases = ground arith

  pub slot-detached :
      (u : ℕ) (k : P.Key)
      → slot detached u k
        ≡ (if t == u then ite (P.entries.key_eq key k) none (slot w u k) else slot w u k)
  unfolding slot
  slot-detached u k = ground (arith, P.entries.get-remove (w.registries t).slot_of key k)

  pub slot-opened :
      (u : ℕ) (k : P.Key)
      → slot opened u k ≡ (
          if t == u
          then ite (P.entries.key_eq key k) (some w.next_slot) (slot w u k)
          else slot w u k)
  unfolding slot
  slot-opened u k = ground (arith, P.entries.get-insert (w.registries t).slot_of key w.next_slot k)
