-- ===== src/Moves/Operations/Acquisitions.antt =====
-- src/context.rs: acquisition through an identity, `spawn`, and discovery.
use resourcery.Base.{
  ℕ, ◌≡◌, ◌≢◌, refl, Bool, true, false, none, some, List, [], ◌∷◌, arith, All, Bool-cases,
  Option-cases, inl, inr,
}
use resourcery.Placement.{canonical}
use resourcery.World.{Program, World, SlotState, starting, active}
use resourcery.Domain.{Meanwhile, is_accepting}
use resourcery.Reference.{acquire_entry}
use resourcery.Registry.{
  Claim, active_entry, owner, wait, occupied, closed, slot, claim, live_snapshot,
}
use resourcery.Context.{
  Pauses, Built, try_acquire_canonical, Acquisition, ready, suspended, unreachable, acquire_loop,
  acquire_canonical, Resource, spawn, try_get_or_spawn, get_or_spawn, get, status, all,
  acquire_each,
}
use resourcery.Moves.{Moves, here, chain, branch}
use resourcery.Moves.Invariant.{Inv}
use resourcery.Moves.Preservation.{Moves-Inv}
use resourcery.Moves.Operations.Leases.{acquire_entry-Moves}
use resourcery.Moves.Operations.Claims.{claim-Moves}
use resourcery.Moves.Operations.Domains.{Acts}
use resourcery.Moves.Operations.Contexts.{
  ActsIn, create_and_start-Moves, finish_canonical_creation-Moves,
}

module _ {P : Program} where
  -- An acquisition that is over, or that waits, got there by atomic actions, and it never runs into
  -- `unreachable!`.
  abbrev pub Reached : World P → Acquisition P → Type 0
  Reached w (ready u r) = Moves w u
  Reached w (suspended u) = Moves w u
  Reached w unreachable = ⊥

  Reached-after : {w u : World P} (r : Acquisition P) → Moves w u → Reached u r → Reached w r
  Reached-after (ready x r) p q = chain p q
  Reached-after (suspended x) p q = chain p q
  Reached-after unreachable p q = q

  try_acquire_canonical-at :
      {w : World P}
      → Inv w
      → (t : ℕ) (key : P.Key) (create_only : Bool) (others : Pauses P) (built : Built P.Interface)
      → ActsIn others
      → (r : Claim) → (claim w t key create_only).1 ≡ r
      → is_accepting w ≡ true
      → Moves w (try_acquire_canonical w t key create_only others built).0
  unfolding try_acquire_canonical
  try_acquire_canonical-at v t key co others built acts (owner s n) e a =
      let p = claim-Moves v t key co in
      rw (a, e, try_acquire_canonical)
        (chain p (finish_canonical_creation-Moves (Moves-Inv p v) _ others built acts))
  try_acquire_canonical-at v t key co others built acts (active_entry g) e a =
      rw (a, e, try_acquire_canonical) (claim-Moves v t key co)
  try_acquire_canonical-at v t key co others built acts _ e a =
      rw (a, e, try_acquire_canonical) (claim-Moves v t key co)

  pub try_acquire_canonical-Moves :
      {w : World P}
      → Inv w
      → (t : ℕ) (key : P.Key) (create_only : Bool) (others : Pauses P) (built : Built P.Interface)
      → ActsIn others
      → Moves w (try_acquire_canonical w t key create_only others built).0
  unfolding try_acquire_canonical
  try_acquire_canonical-Moves {w} v t key co others built acts =
      elim (Bool-cases (is_accepting w)) [
        | inl a ↦ try_acquire_canonical-at v t key co others built acts (claim w t key co).1 refl a
        | inr a ↦ rw (a, try_acquire_canonical) here
      ]

  -- A claim that may reuse is never told that the identity is occupied.
  pub claim-ne-occupied : (w : World P) (t : ℕ) (key : P.Key) → (claim w t key false).1 ≢ occupied
  unfolding claim
  claim-ne-occupied w t key = ground arith

  acquire_loop-at :
      (w : World P)
      → Inv w
      → (t : ℕ) (key : P.Key) (others : Pauses P) (built : Built P.Interface) → ActsIn others
      → (r : Claim) → (claim w t key false).1 ≡ r
      → (waits : List (Meanwhile P)) → All Acts waits
      → Reached w (acquire_loop w t key waits others built)
  unfolding acquire_loop
  acquire_loop-at w v t key others built acts (active_entry g) e [] h =
      rw (e, acquire_loop) (claim-Moves v t key false)
  acquire_loop-at w v t key others built acts (owner s n) e [] h =
      let p = claim-Moves v t key false in
      rw (e, acquire_loop)
        (chain p (finish_canonical_creation-Moves (Moves-Inv p v) _ others built acts))
  acquire_loop-at w v t key others built acts (wait s) e [] h =
      rw (e, acquire_loop) (claim-Moves v t key false)
  acquire_loop-at w v t key others built acts occupied e [] h = absurd (claim-ne-occupied w t key e)
  acquire_loop-at w v t key others built acts closed e [] h =
      rw (e, acquire_loop) (claim-Moves v t key false)
  acquire_loop-at w v t key others built acts (active_entry g) e (waited ∷ waits) h =
      rw (e, acquire_loop) (claim-Moves v t key false)
  acquire_loop-at w v t key others built acts (owner s n) e (waited ∷ waits) h =
      let p = claim-Moves v t key false in
      rw (e, acquire_loop)
        (chain p (finish_canonical_creation-Moves (Moves-Inv p v) _ others built acts))
  acquire_loop-at w v t key others built acts (wait s) e (waited ∷ waits) h =
      let p = chain (claim-Moves v t key false) (h.0 (claim w t key false).0) in
      let w' = waited (claim w t key false).0 in
      rw (e, acquire_loop)
        (Reached-after (acquire_loop w' t key waits others built) p (
          acquire_loop-at w' (Moves-Inv p v) t key others built acts (claim w' t key false).1 refl
            waits h.1))
  acquire_loop-at w v t key others built acts occupied e (waited ∷ waits) h =
      absurd (claim-ne-occupied w t key e)
  acquire_loop-at w v t key others built acts closed e (waited ∷ waits) h =
      rw (e, acquire_loop) (claim-Moves v t key false)

  pub acquire_canonical-Reached :
      {w : World P}
      → Inv w
      → (t : ℕ) (key : P.Key) (waits : List (Meanwhile P)) (others : Pauses P)
        (built : Built P.Interface)
      → All Acts waits
      → ActsIn others
      → Reached w (acquire_canonical w t key waits others built)
  unfolding acquire_canonical
  acquire_canonical-Reached {w} v t key waits others built h acts =
      elim (Bool-cases (is_accepting w)) [
        | inl a ↦
            rw (a, acquire_canonical)
              (acquire_loop-at w v t key others built acts (claim w t key false).1 refl waits h)
        | inr a ↦ rw (a, acquire_canonical) here
      ]

  get_slot-Moves :
      {w : World P}
      → Inv w
      → (t : ℕ) (key : P.Key) (s : ℕ) → slot w t key ≡ some s
      → (state : SlotState) → w.slots s ≡ state
      → Moves w (get w t key).0 × Moves w (status w t key).0
  unfolding get status
  get_slot-Moves v t key s e (starting n) p = (rw (e, get, p) here, rw (e, status, p) here)
  get_slot-Moves {w} v t key s e (active n g) p = (
    rw (e, get, p)
        (branch (acquire_entry w g).1 _ _ (λ _. acquire_entry-Moves v g)
          (λ _. acquire_entry-Moves v g)),
    rw (e, status, p)
        (branch (acquire_entry w g).1 _ _ (λ _. acquire_entry-Moves v g)
          (λ _. acquire_entry-Moves v g)),
  )

  pub get-status-Moves :
      {w : World P}
      → Inv w
      → (t : ℕ) (key : P.Key) → Moves w (get w t key).0 × Moves w (status w t key).0
  unfolding get status
  get-status-Moves {w} v t key = elim (Option-cases (slot w t key)) [
    | inl e ↦ (rw (e, get) here, rw (e, status) here)
    | inr (s, e) ↦ get_slot-Moves v t key s e (w.slots s) refl
  ]

  acquire_each-Moves : {w : World P} → Inv w → (gs : List ℕ) → Moves w (acquire_each w gs).0
  unfolding acquire_each
  acquire_each-Moves v [] = here
  acquire_each-Moves {w} v (g ∷ gs) =
      let p = acquire_entry-Moves v g in
      chain p (acquire_each-Moves {w = (acquire_entry w g).0} (Moves-Inv p v) gs)

  pub all-Moves : {w : World P} → Inv w → (t : ℕ) → Moves w (all w t).0
  unfolding all
  all-Moves {w} v t = acquire_each-Moves v (live_snapshot w t)

module _ {P : Program} (R : Resource P) where
  -- `spawn`, begun where the bookkeeping is right, does nothing to the shared state but by the atomic
  -- actions, if the rest of the program does so too while the resource is built: on every branch of
  -- it, and for every placement, the state after it is reached by a chain of these.
  pub spawn-Moves :
      {w : World P}
      → Inv w
      → (input : R.Input) (others : Pauses P) (built : Built P.Interface) → ActsIn others
      → Moves w (spawn R w input others built).0
  unfolding spawn
  spawn-Moves {w} v input others built acts =
      branch (canonical R.placement) _ _
        (λ _. try_acquire_canonical-Moves v R.type_id _ true others built acts)
        (λ _. create_and_start-Moves v R.type_id none others.building built acts.0)

  pub try_get_or_spawn-Moves :
      {w : World P}
      → Inv w
      → (input : R.Input) (others : Pauses P) (built : Built P.Interface) → ActsIn others
      → Moves w (try_get_or_spawn R w input others built).0
  unfolding try_get_or_spawn
  try_get_or_spawn-Moves {w} v input others built acts =
      try_acquire_canonical-Moves v R.type_id _ false others built acts

  -- `get_or_spawn`, begun where the bookkeeping is right, never runs into its `unreachable!`, however
  -- often it waits; and if the rest of the program acts by the atomic actions only while it waits and
  -- builds, the state after it is reached by a chain of these.
  pub get_or_spawn-Reached :
      {w : World P}
      → Inv w
      → (input : R.Input) (waits : List (Meanwhile P)) (others : Pauses P)
        (built : Built P.Interface)
      → All Acts waits
      → ActsIn others
      → Reached w (get_or_spawn R w input waits others built)
  unfolding get_or_spawn
  get_or_spawn-Reached v input waits others built h acts =
      acquire_canonical-Reached v R.type_id _ waits others built h acts
