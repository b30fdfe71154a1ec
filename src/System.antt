-- ===== src/System.antt =====
-- src/context.rs and src/domain.rs: callers that race for canonical identities.
--
-- Each caller is at a point of `acquire_canonical` or `try_acquire_canonical`. Between the points
-- stand the atomic actions of the code; those of all callers, of the supervisors and of the rest of
-- the program follow one another in any order.
pub mod Invariant
pub mod Steps
pub mod Claims
pub mod Owners
pub mod Endings
pub mod Builds
pub mod Exclusion
pub mod Waiting
pub mod Suspensions
pub mod Notification
pub mod Resumption
pub mod Constructions
use resourcery.Base.{
  Bool, List, ◌∷◌, ◌==◌, ℕ, suc, ◌+◌, ◌%◌, ◌^◌, ◌≡◌, true, false, Option, none, some, if◌then◌else◌,
  update,
}
use resourcery.Lifecycle.{finished}
use resourcery.World.{Program, Cleanup, World, starting, active, new_world, Call, notify_slot}
use resourcery.Domain.{control, is_accepting}
use resourcery.Registry.{slot, set_slot, remove_if_same}
use resourcery.Registry.Cases.{opened}
use resourcery.Context.{establish, cleanup_of}
use resourcery.Moves.{
  Dead, Move, registers, closes, shuts, cancels, finishes, leases, releases, reclaims, opens,
  installs, removes, lists, unlists, allocates, supervises, calls_out,
}

-- Where a caller is: it owns no construction; it awaits the build; it has a generation that is not
-- installed yet; it is about to drop the construction guard while that is armed; it is about to
-- notify those who wait for a slot; or it is suspended, until a slot is notified.
pub data Stage (P : Program) : Type 0 where
  idle : Stage P
  building : Cleanup P → Stage P
  created : Cleanup P → (g : ℕ) → Stage P
  failing : Cleanup P → Stage P
  telling waiting : (s : ℕ) → Stage P

pub record State (P : Program) : Type 0 where
  pub world : World P
  -- the callers, by their numbers
  pub stages : ℕ → Stage P

-- `Event::notify` on a slot.
abbrev is_wake : {E : Type 0} → Call E → Bool
is_wake (notify_slot s) = true
is_wake _ = false

module _ {P : Program} where
  open P use {Interface, Key}

  -- `notify(usize::MAX)` on a slot resumes all who wait for it, and nobody else.
  abbrev pub wake : ℕ → Stage P → Stage P
  wake s (waiting x) = if x == s then idle else waiting x
  wake s stage = stage

  -- The actions that concern neither an identity nor the creation of a generation.
  abbrev pub Quiet : {w u : World P} → Move w u → Type 0
  Quiet (closes id e) = Unit
  Quiet (shuts e) = Unit
  Quiet (cancels g h e) = Unit
  Quiet (finishes g h e) = Unit
  Quiet (leases g n h e) = Unit
  Quiet (releases g n h e) = Unit
  Quiet (lists t id g e) = Unit
  Quiet (unlists t id e) = Unit
  Quiet (calls_out c h e) = is_wake c ≡ false
  Quiet _ = ⊥

  pub data Step (a b : State P) : Type 0 where
    quiet : (m : Move a.world b.world) → Quiet m → b.stages ≡ a.stages → Step a b
    -- `claim` at a slot whose generation cannot be acquired any more
    takes_over :
        (i t : ℕ) (key : Key) (s n g : ℕ)
        → a.stages i ≡ idle
        → slot a.world t key ≡ some s
        → a.world.slots s ≡ active n g
        → is_accepting a.world ≡ true
        → Dead a.world g
        → b ≡ record {
          world = set_slot a.world s (starting ((n + 1) % 2 ^ 64));
          stages = update a.stages i (building (cleanup_of t key s ((n + 1) % 2 ^ 64)));
        }
        → Step a b
    -- `claim` at a vacant map entry
    enters :
        (i t : ℕ) (key : Key)
        → a.stages i ≡ idle
        → slot a.world t key ≡ none
        → is_accepting a.world ≡ true
        → b ≡ record {
          world = opened a.world t key;
          stages = update a.stages i (building (cleanup_of t key a.world.next_slot 1));
        }
        → Step a b
    -- the build is over, and `create` registers what was built, or is refused
    establishes :
        (i : ℕ) (c : Cleanup P) (interface : Interface)
        → a.stages i ≡ building c
        → b ≡ record {
          world = (establish a.world c.type_id (some c) interface).0;
          stages =
              update a.stages i
                (if is_accepting a.world then created c a.world.next_generation else failing c);
        }
        → Step a b
    -- the build panics, or the future of the acquisition is dropped while it builds
    abandons :
        (i : ℕ) (c : Cleanup P)
        → a.stages i ≡ building c
        → b ≡ record { world = a.world; stages = update a.stages i (failing c) }
        → Step a b
    -- the slot is made `Active`
    publishes :
        (i : ℕ) (c : Cleanup P) (g : ℕ)
        → a.stages i ≡ created c g
        → b ≡ record {
          world = set_slot a.world c.slot (active c.generation g);
          stages = update a.stages i (telling c.slot);
        }
        → Step a b
    -- the last test of the domain's phase fails
    refuses :
        (i : ℕ) (c : Cleanup P) (g : ℕ)
        → a.stages i ≡ created c g
        → is_accepting a.world ≡ false
        → b ≡ record { world = a.world; stages = update a.stages i (failing c) }
        → Step a b
    -- the drop of the armed guard, up to its notification
    vacates :
        (i : ℕ) (c : Cleanup P)
        → a.stages i ≡ failing c
        → b ≡ record {
          world = remove_if_same a.world c.type_id c.key c.slot c.generation;
          stages = update a.stages i (telling c.slot);
        }
        → Step a b
    -- the notification, after the slot was made `Active` or the guard has removed it
    tells :
        (i s : ℕ)
        → a.stages i ≡ telling s
        → b ≡ record {
          world = record a.world { calls = notify_slot s ∷ a.world.calls };
          stages = λ j. wake s (update a.stages i idle j);
        }
        → Step a b
    -- `claim` at a slot that is `Starting`: the caller suspends
    waits :
        (i t : ℕ) (key : Key) (s n : ℕ)
        → a.stages i ≡ idle
        → slot a.world t key ≡ some s
        → a.world.slots s ≡ starting n
        → b ≡ record { world = a.world; stages = update a.stages i (waiting s) }
        → Step a b
    -- the future of an acquisition that waits is dropped
    leaves :
        (i s : ℕ)
        → a.stages i ≡ waiting s
        → b ≡ record { world = a.world; stages = update a.stages i idle }
        → Step a b
    -- the supervisor of a finished generation runs its cleanup
    cleans :
        (g : ℕ) (c : Cleanup P)
        → (a.world.generations g).on_finish ≡ some c
        → (control a.world g).phase ≡ finished
        → b ≡ record {
          world = remove_if_same a.world c.type_id c.key c.slot c.generation;
          stages = a.stages;
        }
        → Step a b
    -- `create` for a resource that has no identity
    creates :
        (t : ℕ) (interface : Interface)
        → b ≡ record { world = (establish a.world t none interface).0; stages = a.stages }
        → Step a b

  abbrev pub initial : State P
  initial = record { world = new_world; stages = λ i. idle }

  -- The states that a new runtime reaches in so many steps.
  pub data Reach : ℕ → State P → Type 0 where
    begin : Reach 0 initial
    after : {k : ℕ} {a b : State P} → Reach k a → Step a b → Reach (suc k) b

  -- The steps of a run, the first one first.
  pub data Run : State P → State P → Type 0 where
    stop : {a : State P} → Run a a
    go : {a b c : State P} → Step a b → Run b c → Run a c

  pub join : {a b c : State P} → Run a b → Run b c → Run a c
  join stop q = q
  join (go s p) q = go s (join p q)
