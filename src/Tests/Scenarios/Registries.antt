-- ===== src/Tests/Scenarios/Registries.antt =====
-- src/domain.rs, the tests of its registry. Threads that the test releases at once hold the map's
-- entry one after another; each order is a run.
use resourcery.Base.{ℕ, ◌+◌, Bool, true, false, ◌&&◌, Option, none, some, ◌==◌, if◌then◌else◌}
use resourcery.World.{new_world, active}
use resourcery.Registry.{Claim, owner, wait, slot, set_slot, claim, remove_if_same}
use resourcery.Tests.Samples.{sample}

-- `Canonical` has the type 0, its one key is 0.
abbrev owns : Claim → ℕ → Bool
owns (owner s generation) expected = generation == expected
owns _ expected = false

abbrev waits_for : Claim → ℕ → Bool
waits_for (wait s) expected = s == expected
waits_for _ expected = false

abbrev slot_of : Claim → ℕ
slot_of (owner s generation) = s
slot_of (wait s) = s
slot_of _ = 0

-- The claimant is within its claim when the cleanup of the generation 1 starts. The entry `g` is
-- one that cannot be upgraded.
unfoldable pub cleanup_cannot_detach_a_slot_while_it_is_being_claimed : ℕ → Bool
unfolding claim remove_if_same slot new_world
cleanup_cannot_detach_a_slot_while_it_is_being_claimed g =
    let (w, first) = claim (new_world {P = sample}) 0 0 false in
    let w' = set_slot w (slot_of first) (active 1 g) in
    let (w'', second) = claim w' 0 0 false in
    let w3 = remove_if_same w'' 0 0 (slot_of first) 1 in
    let (w4, third) = claim w3 0 0 false in
    owns first 1
    && owns second 2
    && elim (slot w3 0 0) [ none ↦ false | some s ↦ s == slot_of second ]
    && waits_for third (slot_of second)

-- The model of the last test: a slot's generation and whether it is being constructed, and how many
-- owners there have been.
pub record Detail : Type 0 where
  pub generation : ℕ
  pub is_new : Bool

pub record Shared : Type 0 where
  pub map : Option Detail
  pub owners : ℕ

abbrev pub beginning : Shared
beginning = record { map = some (record { generation = 1; is_new = false }); owners = 0 }

unfoldable pub acquires : Shared → Shared
acquires shared = elim shared.map [
  | none ↦ record {
    map = some (record { generation = 1; is_new = true });
    owners = shared.owners + 1;
  }
  | some slot ↦ if slot.is_new then shared else record {
    map = some (record { generation = slot.generation + 1; is_new = true });
    owners = shared.owners + 1;
  }
]

unfoldable pub cleans_up : Shared → Shared
cleans_up shared = elim shared.map [
  | none ↦ shared
  | some slot ↦ if slot.generation == 1 then record shared { map = none } else shared
]

unfoldable pub cleanup_and_acquire : Shared → Shared
unfolding cleans_up
cleanup_and_acquire shared =
    let cleaned = cleans_up shared in
    elim cleaned.map [
      | none ↦ record {
        map = some (record { generation = 1; is_new = true });
        owners = cleaned.owners + 1;
      }
      | some slot ↦ cleaned
    ]

unfoldable pub loom_claim_and_cleanup_have_one_registry_linearization_point : Bool
unfolding acquires cleanup_and_acquire
loom_claim_and_cleanup_have_one_registry_linearization_point =
    let one = cleanup_and_acquire (acquires beginning) in
    let other = acquires (cleanup_and_acquire beginning) in one.owners == 1 && other.owners == 1
