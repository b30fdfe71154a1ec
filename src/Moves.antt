-- ===== src/Moves.antt =====
-- The atomic actions of src/*.rs on the shared state: one atomic instruction, or one critical
-- section, each. A run of the whole program, with its threads interleaved in any way, is modelled as
-- a chain of them.
pub mod Invariant
pub mod Forward
pub mod Operations
pub mod Preservation
use resourcery.Base.{
  ℕ, suc, ◌+◌, ◌%◌, ◌^◌, ◌<◌, ◌≡◌, refl, if◌then◌else◌, Bool, true, false, ◌⊎◌, Option, none, some,
  List, ◌∷◌,
}
use resourcery.Lifecycle.{is_active, Phase}
use resourcery.World.{Program, Cleanup, World, starting, active, Call, cancel_token, notify_slot}
use resourcery.Domain.{
  control, is_accepting, register_locked, task_finished, cancel_locked, cancel_control,
}
use resourcery.Reference.{strong, set_strong}
use resourcery.Registry.{slot, set_slot, claim_vacant, remove_if_same, insert_live, remove_live}
use resourcery.Context.{allocate, set_generation, finish_control}

abbrev pub is_cancel : {E : Type 0} → Call E → Bool
is_cancel (cancel_token t) = true
is_cancel _ = false

module _ {P : Program} where
  open P use {Key, Interface, Error}

  -- Nobody can acquire the generation any more: its leases are gone, or it is not active.
  abbrev pub Dead : World P → ℕ → Type 0
  Dead w g = (strong w g ≡ 0) ⊎ (is_active (control w g) ≡ false)

  pub data Move (w u : World P) : Type 0 where
    -- `register`, under the supervisor's lock
    registers : (g : ℕ) → g < w.next_generation → u ≡ (register_locked w g).0 → Move w u
    -- `task_finished`, under that lock
    closes : (id : ℕ) → u ≡ task_finished w id → Move w u
    -- `Domain::cancel`, under that lock
    shuts : u ≡ (cancel_locked w).0 → Move w u
    -- `Control::cancel`
    cancels : (g : ℕ) → g < w.next_generation → u ≡ cancel_control w g → Move w u
    -- `Control::finish`
    finishes : (g : ℕ) → g < w.next_generation → u ≡ finish_control w g → Move w u
    -- a lease is added to those that there are, by a clone or an upgrade
    leases : (g n : ℕ) → strong w g ≡ suc n → u ≡ set_strong w g (suc (suc n)) → Move w u
    -- a lease ends
    releases : (g n : ℕ) → strong w g ≡ suc n → u ≡ set_strong w g n → Move w u
    -- `claim` at a slot whose generation cannot be acquired
    reclaims :
        (s n g : ℕ)
        → is_accepting w ≡ true
        → w.slots s ≡ active n g
        → Dead w g
        → u ≡ set_slot w s (starting ((n + 1) % 2 ^ 64))
        → Move w u
    -- `claim` at a vacant map entry
    opens : (t : ℕ) (key : Key) → slot w t key ≡ none → u ≡ (claim_vacant w t key).0 → Move w u
    -- the owner of a construction publishes it
    installs : (c : Cleanup P) (g : ℕ) → u ≡ set_slot w c.slot (active c.generation g) → Move w u
    removes : (t : ℕ) (key : Key) (s n : ℕ) → u ≡ remove_if_same w t key s n → Move w u
    lists : (t id g : ℕ) → u ≡ insert_live w t id g → Move w u
    unlists : (t id : ℕ) → u ≡ remove_live w t id → Move w u
    allocates :
        (t : ℕ) (on_finish : Option (Cleanup P)) (interface : Interface)
        → u ≡ allocate w t on_finish interface
        → Move w u
    -- the supervisor is given its task's id
    supervises :
        (g id : ℕ)
        → g < w.next_generation
        → u ≡ set_generation w g (record (w.generations g) { task_id = some id })
        → Move w u
    -- a call of another package that cancels no token
    calls_out :
        (c : Call Error) → is_cancel c ≡ false → u ≡ record w { calls = c ∷ w.calls } → Move w u

  pub data Moves (w : World P) : World P → Type 0 where
    here : Moves w w
    next : {u v : World P} → Moves w u → Move u v → Moves w v

  pub chain : {w u v : World P} → Moves w u → Moves u v → Moves w v
  chain p here = p
  chain p (next q m) = next (chain p q) m

  pub one : {w u : World P} → Move w u → Moves w u
  one m = next here m

  -- Both branches of a test are chains of actions.
  pub branch :
      {w : World P} {A : Type 0} (b : Bool) (x y : World P × A)
      → (b ≡ true → Moves w x.0)
      → (b ≡ false → Moves w y.0)
      → Moves w (if b then x else y).0
  branch true x y p q = p refl
  branch false x y p q = q refl

  pub choose :
      {w : World P} (b : Bool) (x y : World P)
      → (b ≡ true → Moves w x)
      → (b ≡ false → Moves w y)
      → Moves w (if b then x else y)
  choose true x y p q = p refl
  choose false x y p q = q refl
