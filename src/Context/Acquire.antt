-- ===== src/Context/Acquire.antt =====
-- src/context.rs: acquisition through a canonical identity, and `spawn`.
use resourcery.Base.{ℕ, Bool, true, false, none, some, List, [], ◌∷◌, if◌then◌else◌}
use resourcery.Placement.{Placement, Key, canonical, placement_key}
use resourcery.World.{Program, Cleanup, World, active, notify_slot}
use resourcery.Domain.{is_accepting, Meanwhile}
use resourcery.Reference.{drop_ref}
use resourcery.Registry.{
  active_entry, owner, wait, occupied, closed, set_slot, claim, remove_if_same,
}
use resourcery.Context.Create.{
  AcquireError, Result, ok, err, Built, create, create_and_start, send_start,
}
use resourcery.Context.Create

-- A resource type of the program: src/resource.rs, the trait `Resource`, as far as acquisition
-- reads it. `embed` places the keys of this type among those of the program.
pub record Resource (P : Program) : Type 1 where
  pub type_id : ℕ
  pub Input : Type 0
  pub KeyedKey : Type 0
  pub placement : Placement Input KeyedKey
  pub embed : Key placement → P.Key

-- `CanonicalConstructionGuard`; its registry, key, slot and generation are those of the closure
-- `on_finish` made beside it.
pub record Guard (P : Program) : Type 0 where
  pub target : Cleanup P
  pub armed : Bool

-- What the rest of the program does while a canonical construction is at one of its two points:
-- while the resource is built, and between the return of `create` and the second test of the domain.
pub record Pauses (P : Program) : Type 0 where
  pub building : Meanwhile P
  pub registered : Meanwhile P

-- An acquisition that may wait: it is over with a result, it is suspended still when the rounds
-- are over, or it has run into `unreachable!`.
pub data Acquisition (P : Program) : Type 0 where
  ready : World P → Result ℕ → Acquisition P
  suspended : World P → Acquisition P
  unreachable : Acquisition P

module _ {P : Program} where
  open P use {Interface, Key as IdKey}

  unfoldable pub disarm : Guard P → Guard P
  disarm guard = record guard { armed = false }

  -- `Drop` of the guard. The future of an acquisition that is dropped while it awaits the build
  -- ends with this too.
  unfoldable pub drop_guard : World P → Guard P → World P
  unfolding remove_if_same
  drop_guard w guard =
      if guard.armed
      then (let c = guard.target in
          let w' = remove_if_same w c.type_id c.key c.slot c.generation in
          record w' { calls = notify_slot c.slot ∷ w'.calls })
      else w

  -- The `Ok` branch of `finish_canonical_creation`, for the generation `g`.
  unfoldable pub install : World P → Cleanup P → ℕ → World P × Result ℕ
  unfolding is_accepting drop_ref disarm drop_guard
  install w c g =
      let guard : Guard P = record { target = c; armed = true } in
      if is_accepting w
      then (let w' = set_slot w c.slot (active c.generation g) in
          let w'' : World P = record w' { calls = notify_slot c.slot ∷ w'.calls } in
          (drop_guard (send_start w'' g) (disarm guard), ok g))
      else (drop_guard (drop_ref (send_start w g) g) guard, err Create.shutting_down)

  -- The `match resource` of `finish_canonical_creation`, on what `create` returned.
  unfoldable pub conclude : Cleanup P → Meanwhile P → World P × Result ℕ → World P × Result ℕ
  unfolding install drop_guard
  conclude c others (w, ok g) = install (others w) c g
  conclude c others (w, err e) = (drop_guard w (record { target = c; armed = true }), err e)

  unfoldable pub finish_canonical_creation :
      World P → Cleanup P → Pauses P → Built Interface → World P × Result ℕ
  unfolding create conclude
  finish_canonical_creation w c others built =
      conclude c others.registered (create w c.type_id (some c) others.building built)

  abbrev pub cleanup_of : ℕ → IdKey → ℕ → ℕ → Cleanup P
  cleanup_of t key s generation = record {
    type_id = t;
    key = key;
    slot = s;
    generation = generation;
  }

  unfoldable pub try_acquire_canonical :
      World P → ℕ → IdKey → Bool → Pauses P → Built Interface → World P × Result ℕ
  unfolding is_accepting claim finish_canonical_creation
  try_acquire_canonical w t key create_only others built =
      if is_accepting w
      then (let (w', claimed) = claim w t key create_only in
          elim claimed [
            | active_entry g ↦ (w', ok g)
            | owner s generation ↦
                finish_canonical_creation w' (cleanup_of t key s generation) others built
            | wait s ↦ (w', err Create.occupied)
            | occupied ↦ (w', err Create.occupied)
            | closed ↦ (w', err Create.shutting_down)
          ])
      else (w, err Create.shutting_down)

  -- The loop of `acquire_canonical`: each element of `waits` is what happens until the listener of
  -- a wait is notified.
  unfoldable pub acquire_loop :
      World P → ℕ → IdKey → List (Meanwhile P) → Pauses P → Built Interface → Acquisition P
  unfolding claim finish_canonical_creation
  acquire_loop w t key [] others built =
      let (w', claimed) = claim w t key false in
      elim claimed [
        | active_entry g ↦ ready w' (ok g)
        | owner s generation ↦
            (let (w'', r) =
                finish_canonical_creation w' (cleanup_of t key s generation) others built in
              ready w'' r)
        | wait s ↦ suspended w'
        | occupied ↦ unreachable
        | closed ↦ ready w' (err Create.shutting_down)
      ]
  acquire_loop w t key (waited ∷ waits) others built =
      let (w', claimed) = claim w t key false in
      let again = acquire_loop (waited w') t key waits others built in
      elim claimed [
        | active_entry g ↦ ready w' (ok g)
        | owner s generation ↦
            (let (w'', r) =
                finish_canonical_creation w' (cleanup_of t key s generation) others built in
              ready w'' r)
        | wait s ↦ again
        | occupied ↦ unreachable
        | closed ↦ ready w' (err Create.shutting_down)
      ]

  unfoldable pub acquire_canonical :
      World P → ℕ → IdKey → List (Meanwhile P) → Pauses P → Built Interface → Acquisition P
  unfolding is_accepting acquire_loop
  acquire_canonical w t key waits others built =
      if is_accepting w
      then acquire_loop w t key waits others built
      else ready w (err Create.shutting_down)

module _ {P : Program} (R : Resource P) where
  open R use {Input, placement, embed, type_id}
  open P use {Interface}

  abbrev pub key_of : Input → P.Key
  key_of input = embed (placement_key placement input)

  -- `spawn`, with `spawn_canonical`.
  unfoldable pub spawn : World P → Input → Pauses P → Built Interface → World P × Result ℕ
  unfolding canonical placement_key try_acquire_canonical create_and_start
  spawn w input others built =
      if canonical placement
      then try_acquire_canonical w type_id (key_of input) true others built
      else create_and_start w type_id none others.building built

  unfoldable pub try_get_or_spawn :
      World P → Input → Pauses P → Built Interface → World P × Result ℕ
  unfolding placement_key try_acquire_canonical
  try_get_or_spawn w input others built =
      try_acquire_canonical w type_id (key_of input) false others built

  unfoldable pub get_or_spawn :
      World P → Input → List (Meanwhile P) → Pauses P → Built Interface → Acquisition P
  unfolding placement_key acquire_canonical
  get_or_spawn w input waits others built =
      acquire_canonical w type_id (key_of input) waits others built
