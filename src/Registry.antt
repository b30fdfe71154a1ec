-- ===== src/Registry.antt =====
-- src/domain.rs, `Registry` and `RegistrySlot`: which generation holds a canonical identity.
--
-- An identity is a resource type and a key. `claim` and `remove_if_same` hold the map entry and
-- the slot's lock from their first look to their last write, so each is one step.
pub mod Cases
pub mod Ownership
use resourcery.Base.{
  ℕ, ◌+◌, ◌%◌, ◌^◌, Bool, ◌&&◌, Option, none, some, List, if◌then◌else◌, ◌==◌, update,
}
use resourcery.World.{Program, World, SlotState, starting, active}
use resourcery.Domain.{is_accepting}
use resourcery.Reference.{acquire_entry, drop_ref}

-- `RegistryClaim`. An `EventListener` is named by the slot that it listens to.
pub data Claim : Type 0 where
  active_entry : (entry : ℕ) → Claim
  owner : (slot generation : ℕ) → Claim
  wait : (slot : ℕ) → Claim
  occupied closed : Claim

abbrev pub generation_of : SlotState → ℕ
generation_of (starting generation) = generation
generation_of (active generation g) = generation

module _ {P : Program} where
  open P use {Key, entries, live}

  unfoldable pub slot : World P → ℕ → Key → Option ℕ
  slot w t key = entries.get (w.registries t).slot_of key

  abbrev pub set_slot : World P → ℕ → SlotState → World P
  set_slot w s state = record w { slots = update w.slots s state }

  abbrev pub set_slot_of : World P → ℕ → entries.Map → World P
  set_slot_of w t m = record w {
    registries = update w.registries t (record (w.registries t) { slot_of = m });
  }

  abbrev set_live : World P → ℕ → live.Map → World P
  set_live w t m = record w {
    registries = update w.registries t (record (w.registries t) { live_entries = m });
  }

  -- The branch of `claim_inner` at a slot in the state `Active`.
  unfoldable pub claim_active : World P → ℕ → ℕ → ℕ → Bool → World P × Claim
  unfolding acquire_entry drop_ref is_accepting
  claim_active w s generation g create_only =
      let (w', acquired) = acquire_entry w g in
      if acquired
      then (if create_only then (drop_ref w' g, occupied) else (w', active_entry g))
      else if is_accepting w'
      then (
        set_slot w' s (starting ((generation + 1) % 2 ^ 64)),
        owner s ((generation + 1) % 2 ^ 64),
      )
      else (w', closed)

  -- The branch of `claim_inner` at an occupied map entry.
  unfoldable pub claim_occupied : World P → ℕ → Bool → World P × Claim
  unfolding claim_active
  claim_occupied w s create_only = elim (w.slots s) [
    | starting generation ↦ (w, wait s)
    | active generation g ↦ claim_active w s generation g create_only
  ]

  -- The branch at a vacant one: a new slot, in its first generation.
  unfoldable pub claim_vacant : World P → ℕ → Key → World P × Claim
  unfolding is_accepting
  claim_vacant w t key =
      if is_accepting w
      then (let w' = set_slot w w.next_slot (starting 1) in
          let m = entries.insert (w.registries t).slot_of key w.next_slot in
          (record (set_slot_of w' t m) { next_slot = w.next_slot + 1 }, owner w.next_slot 1))
      else (w, closed)

  unfoldable pub claim : World P → ℕ → Key → Bool → World P × Claim
  unfolding slot claim_occupied claim_vacant
  claim w t key create_only = elim (slot w t key) [
    | some s ↦ claim_occupied w s create_only
    | none ↦ claim_vacant w t key
  ]

  unfoldable pub has_generation : World P → ℕ → ℕ → Bool
  has_generation w s expected = generation_of (w.slots s) == expected

  -- `Arc::ptr_eq` compares the slots' addresses.
  unfoldable pub remove_if_same : World P → ℕ → Key → ℕ → ℕ → World P
  unfolding slot has_generation
  remove_if_same w t key s generation = elim (slot w t key) [
    | none ↦ w
    | some present ↦
        if present == s && has_generation w s generation
        then set_slot_of w t (entries.remove (w.registries t).slot_of key)
        else w
  ]

  unfoldable pub insert_live : World P → ℕ → ℕ → ℕ → World P
  insert_live w t id g = set_live w t (live.insert (w.registries t).live_entries id g)

  unfoldable pub remove_live : World P → ℕ → ℕ → World P
  remove_live w t id = set_live w t (live.remove (w.registries t).live_entries id)

  unfoldable pub live_snapshot : World P → ℕ → List ℕ
  live_snapshot w t = live.values (w.registries t).live_entries
