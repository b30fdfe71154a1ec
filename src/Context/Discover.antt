-- ===== src/Context/Discover.antt =====
-- src/context.rs: `get`, `status` and `all`, which create nothing.
use resourcery.Base.{ℕ, Option, none, some, List, [], ◌∷◌, if◌then◌else◌}
use resourcery.World.{Program, World, starting, active}
use resourcery.Reference.{acquire_entry}
use resourcery.Registry.{slot, live_snapshot}

-- `ResourceStatus`.
pub data Status : Type 0 where
  absent in_construction : Status
  leased : (generation : ℕ) → Status

module _ {P : Program} where
  open P use {Key}

  unfoldable pub get : World P → ℕ → Key → World P × Option ℕ
  unfolding slot acquire_entry
  get w t key = elim (slot w t key) [
    | none ↦ (w, none)
    | some s ↦ elim (w.slots s) [
      | starting generation ↦ (w, none)
      | active generation g ↦
          (let (w', acquired) = acquire_entry w g in if acquired then (w', some g) else (w', none))
    ]
  ]

  unfoldable pub status : World P → ℕ → Key → World P × Status
  unfolding slot acquire_entry
  status w t key = elim (slot w t key) [
    | none ↦ (w, absent)
    | some s ↦ elim (w.slots s) [
      | starting generation ↦ (w, in_construction)
      | active generation g ↦
          (let (w', acquired) = acquire_entry w g in
            if acquired then (w', leased g) else (w', absent))
    ]
  ]

  -- The snapshot's weak entries, each upgraded in turn.
  unfoldable pub acquire_each : World P → List ℕ → World P × List ℕ
  unfolding acquire_entry
  acquire_each w [] = (w, [])
  acquire_each w (g ∷ gs) =
      let (w', acquired) = acquire_entry w g in
      let (w'', refs) = acquire_each w' gs in (w'', if acquired then g ∷ refs else refs)

  unfoldable pub all : World P → ℕ → World P × List ℕ
  unfolding live_snapshot acquire_each
  all w t = acquire_each w (live_snapshot w t)
