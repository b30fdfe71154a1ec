-- ===== src/Context/Lookups.antt =====
-- src/context.rs and src/domain.rs: the ways to ask for an identity, and how they agree.
use resourcery.Base.{ℕ, suc, ◌≡◌, ap, true, false, List, [], ◌∷◌, some, arith, ==_refl}
use resourcery.Lifecycle
use resourcery.World.{Program, World, active}
use resourcery.Domain.{control, is_accepting, Meanwhile}
use resourcery.Reference.{strong, set_strong, acquire_entry}
use resourcery.Registry.{Claim, slot, claim, claim_active, active_entry, occupied}
use resourcery.Reference.Leases.{drop_ref-set_strong}
use resourcery.Registry.Ownership.{claim-eq-active}
use resourcery.Context.Create.{Result, ok, err, Built}
use resourcery.Context.Create
use resourcery.Context.Acquire.{
  Pauses, ready, acquire_loop, acquire_canonical, try_acquire_canonical,
}
use resourcery.Context.Discover.{get, status, leased}

module _ {P : Program} (w : World P) (t : ℕ) (key : P.Key) where
  -- The identity is held by a generation that can be acquired: it is active and has `suc k` leases,
  -- in a domain that accepts.
  pub record Live (s n g k : ℕ) : Type 0 where
    pub slot_of : slot w t key ≡ some s
    pub state : w.slots s ≡ active n g
    pub accepting : is_accepting w ≡ true
    pub phase : Lifecycle.is_active (control w g) ≡ true
    pub leases : strong w g ≡ suc k

  abbrev pub one_more_lease : ℕ → ℕ → World P
  one_more_lease g k = set_strong w g (suc (suc k))

  module _ {s n g k : ℕ} (live : Live s n g k) where
    open live use {slot_of, state, accepting, phase, leases}

    acquire_entry-eq : acquire_entry w g ≡ (one_more_lease g k, true)
    unfolding acquire_entry is_accepting Lifecycle.is_active
    acquire_entry-eq = ground (arith, ==_refl g)

    get-eq : get w t key ≡ (one_more_lease g k, some g)
    unfolding get
    get-eq = rw (slot_of, get, state, acquire_entry-eq)

    status-eq : status w t key ≡ (one_more_lease g k, leased g)
    unfolding status
    status-eq = rw (slot_of, status, state, acquire_entry-eq)

    claim-eq-reuse : claim w t key false ≡ (one_more_lease g k, active_entry g)
    unfolding claim_active
    claim-eq-reuse =
        rw (claim-eq-active w t key false s n g slot_of state, claim_active, acquire_entry-eq)

    claim-eq-occupied : claim w t key true ≡ (w, occupied)
    unfolding claim_active
    claim-eq-occupied =
        rw (claim-eq-active w t key true s n g slot_of state, claim_active, acquire_entry-eq)
          (ap (λ u. (u, occupied)) (drop_ref-set_strong w g k leases))

    -- Every way to ask for an identity that is held by a live generation agrees on it. `get` and
    -- `status` return it, and so does a claim that may reuse: all with one lease more, and nothing
    -- else changed. A claim that may only create is refused, and changes nothing at all.
    pub Live-lookups :
        (get w t key ≡ (one_more_lease g k, some g))
        × (status w t key ≡ (one_more_lease g k, leased g))
        × (claim w t key false ≡ (one_more_lease g k, active_entry g))
        × (claim w t key true ≡ (w, occupied))
    Live-lookups = (get-eq, status-eq, claim-eq-reuse, claim-eq-occupied)

    acquire_loop-eq :
        (waits : List (Meanwhile P)) (others : Pauses P) (built : Built P.Interface)
        → acquire_loop w t key waits others built ≡ ready (one_more_lease g k) (ok g)
    unfolding acquire_loop
    acquire_loop-eq [] others built =
        rw (claim-eq-reuse, acquire_loop)
          (ap (λ (r : World P × Claim). ready r.0 (ok g)) claim-eq-reuse)
    acquire_loop-eq (waited ∷ waits) others built =
        rw (claim-eq-reuse, acquire_loop)
          (ap (λ (r : World P × Claim). ready r.0 (ok g)) claim-eq-reuse)

    -- A caller that may reuse gets the live generation, with one lease more: it does not wait, what
    -- `build` would have made of its input does not matter, and the generation is left as it is.
    pub Live-reuse :
        (waits : List (Meanwhile P)) (others : Pauses P) (built : Built P.Interface)
        → (acquire_canonical w t key waits others built ≡ ready (one_more_lease g k) (ok g))
          × (try_acquire_canonical w t key false others built ≡ (one_more_lease g k, ok g))
          × (try_acquire_canonical w t key true others built ≡ (w, err Create.occupied))
    unfolding acquire_canonical try_acquire_canonical
    Live-reuse waits others built = (
      rw (accepting, acquire_canonical, acquire_loop-eq waits others built),
      rw (accepting, try_acquire_canonical, claim-eq-reuse)
          (ap (λ (r : World P × Claim). (r.0, ok g)) claim-eq-reuse),
      rw (accepting, try_acquire_canonical, claim-eq-occupied)
          (ap (λ (r : World P × Claim). (r.0, err Create.occupied)) claim-eq-occupied),
    )
