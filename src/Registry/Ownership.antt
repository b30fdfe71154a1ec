-- ===== src/Registry/Ownership.antt =====
-- src/domain.rs: who holds an identity after a claim, and what a cleanup may take away.
use resourcery.Base.{
  ℕ, ◌+◌, ◌%◌, ◌^◌, ◌<◌, ◌≡◌, ◌≢◌, refl, Bool, none, some, arith, ==_refl, ap, inl, inr, ◌⊎◌,
  Option-cases,
}
use resourcery.World.{Program, World, SlotState, starting, active}
use resourcery.Registry.{
  owner, wait, slot, claim, claim_occupied, claim_active, claim_vacant, has_generation,
  remove_if_same, generation_of,
}
use resourcery.Registry.Cases.{opened, detached, slot-opened, slot-detached, claim_vacant_cases}

next-ne : (m : ℕ) → m < 2 ^ 64 → (m + 1) % 2 ^ 64 ≢ m
next-ne m h = omega arith

module _ {P : Program} where
  -- An identity whose slot is under construction, in a generation.
  abbrev pub Constructing : World P → ℕ → P.Key → ℕ → ℕ → Type 0
  Constructing w t key s n = (slot w t key ≡ some s) × (w.slots s ≡ starting n)

  slot-opened_self :
      (w : World P) (t : ℕ) (key : P.Key) → slot (opened w t key) t key ≡ some w.next_slot
  slot-opened_self w t key = ground (arith, slot-opened w t key t key)

  claim_active-owner :
      (w : World P) (t : ℕ) (key : P.Key) (x m g : ℕ) (co : Bool) (s n : ℕ)
      → slot w t key ≡ some x
      → (claim_active w x m g co).1 ≡ owner s n
      → Constructing (claim_active w x m g co).0 t key s n × (s ≡ x) × (n ≡ (m + 1) % 2 ^ 64)
  unfolding claim_active slot
  claim_active-owner w t key x m g co s n e h = ground arith

  pub claim-eq-active :
      (w : World P) (t : ℕ) (key : P.Key) (co : Bool) (x m g : ℕ)
      → slot w t key ≡ some x
      → w.slots x ≡ active m g
      → claim w t key co ≡ claim_active w x m g co
  unfolding claim
  claim-eq-active w t key co x m g e p = rw (e, claim, p, claim_occupied)

  pub claim-eq-wait :
      (w : World P) (t : ℕ) (key : P.Key) (co : Bool) (x m : ℕ)
      → slot w t key ≡ some x
      → w.slots x ≡ starting m
      → claim w t key co ≡ (w, wait x)
  unfolding claim
  claim-eq-wait w t key co x m e p = rw (e, claim, p, claim_occupied)

  pub claim-eq-vacant :
      (w : World P) (t : ℕ) (key : P.Key) (co : Bool)
      → slot w t key ≡ none
      → claim w t key co ≡ claim_vacant w t key
  unfolding claim
  claim-eq-vacant w t key co e = rw (e, claim)

  -- How a claim becomes the owner: at a vacant entry, or at the slot of a generation, whose number
  -- it increases.
  abbrev pub Replaces : World P → ℕ → P.Key → ℕ → ℕ → Type 0
  Replaces w t key s n =
      ((slot w t key ≡ none) × (n ≡ 1))
      ⊎ ((m : ℕ) × (g : ℕ) × (slot w t key ≡ some s)
          × (w.slots s ≡ active m g)
          × (n ≡ (m + 1) % 2 ^ 64))

  claim-owner-at :
      (w : World P) (t : ℕ) (key : P.Key) (co : Bool) (s n x : ℕ)
      → slot w t key ≡ some x
      → (state : SlotState) → w.slots x ≡ state
      → (claim w t key co).1 ≡ owner s n
      → Constructing (claim w t key co).0 t key s n × Replaces w t key s n
  claim-owner-at w t key co s n x e (starting m) p h = cc (claim-eq-wait w t key co x m e p)
  claim-owner-at w t key co s n x e (active m g) p h =
      let q = claim-eq-active w t key co x m g e p in
      let (a, b, c) = claim_active-owner w t key x m g co s n e (rw q at h) in
      (rw q a, inr (m, g, rw b e, rw b p, c))

  claim_vacant-owner :
      (w : World P) (t : ℕ) (key : P.Key) (s n : ℕ)
      → slot w t key ≡ none
      → (claim_vacant w t key).1 ≡ owner s n
      → Constructing (claim_vacant w t key).0 t key s n × Replaces w t key s n
  claim_vacant-owner w t key s n e h = elim (claim_vacant_cases w t key) [
    | inl (a, q) ↦ cc q
    | inr (a, q) ↦ ground (arith, q, slot-opened_self w t key)
  ]

  -- A claim that becomes the owner leaves its identity under construction.
  pub claim-owner :
      (w : World P) (t : ℕ) (key : P.Key) (co : Bool) (s n : ℕ)
      → (claim w t key co).1 ≡ owner s n
      → Constructing (claim w t key co).0 t key s n × Replaces w t key s n
  claim-owner w t key co s n h = elim (Option-cases (slot w t key)) [
    | inl e ↦
        let q = claim-eq-vacant w t key co e in rw q (claim_vacant-owner w t key s n e (rw q at h))
    | inr (x, e) ↦ claim-owner-at w t key co s n x e (w.slots x) refl h
  ]

  -- A claim of an identity, in the state in which another claim of it has become the owner, changes
  -- nothing and is told to wait for that owner's slot, whether it may reuse or only create.
  pub claim-claim :
      (w : World P) (t : ℕ) (key : P.Key) (co again : Bool) (s n : ℕ)
      → (claim w t key co).1 ≡ owner s n
      → claim (claim w t key co).0 t key again ≡ ((claim w t key co).0, wait s)
  claim-claim w t key co again s n h =
      let ((e, p), _) = claim-owner w t key co s n h in
      claim-eq-wait (claim w t key co).0 t key again s n e p

  remove_if_same-other :
      (w : World P) (t : ℕ) (key : P.Key) (s n m : ℕ)
      → w.slots s ≡ starting n
      → n ≢ m
      → remove_if_same w t key s m ≡ w
  unfolding remove_if_same has_generation
  remove_if_same-other w t key s n m e h = ground arith

  -- Cleanup is safe for its successor: in the state in which a claim has replaced generation `m` of a
  -- slot, `m` a 64-bit number, the cleanup of generation `m` changes nothing.
  pub remove_if_same-claim :
      (w : World P) (t : ℕ) (key : P.Key) (co : Bool) (s n m g : ℕ)
      → m < 2 ^ 64
      → slot w t key ≡ some s
      → w.slots s ≡ active m g
      → (claim w t key co).1 ≡ owner s n
      → remove_if_same (claim w t key co).0 t key s m ≡ (claim w t key co).0
  remove_if_same-claim w t key co s n m g bound e p h =
      let q = claim-owner w t key co s n h in
      remove_if_same-other (claim w t key co).0 t key s n m q.0.1
        (elim q.1 [ inl (a, b) ↦ cc | inr (m', g', a, b, c) ↦ λ z. next-ne m bound (ground arith) ])

  pub remove_if_same-eq :
      (w : World P) (t : ℕ) (key : P.Key) (s n : ℕ)
      → slot w t key ≡ some s
      → generation_of (w.slots s) ≡ n
      → remove_if_same w t key s n ≡ detached w t key
  unfolding remove_if_same has_generation
  remove_if_same-eq w t key s n e p = ground (arith, ==_refl s)

  -- The owner's own cleanup leaves its identity vacant, and the slots of all others as they were.
  pub remove_if_same-owner :
      (w : World P) (t : ℕ) (key : P.Key) (s n : ℕ)
      → Constructing w t key s n
      → (slot (remove_if_same w t key s n) t key ≡ none)
        × ((u : ℕ) (k : P.Key)
            → (t ≢ u) ⊎ (key ≢ k)
            → slot (remove_if_same w t key s n) u k ≡ slot w u k)
  remove_if_same-owner w t key s n (e, p) =
      rw (remove_if_same-eq w t key s n e (ap generation_of p)) (
        ground (arith, slot-detached w t key t key),
        λ u k h. ground (arith, slot-detached w t key u k),
      )
