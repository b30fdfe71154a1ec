-- ===== src/System/Owners.antt =====
-- src/domain.rs, `claim`: the claim that makes a caller an owner is one step of the race.
use resourcery.Base.{
  ℕ, ◌+◌, ◌%◌, ◌^◌, ◌≡◌, inl, inr, refl, ◌∙◌, sym, ap, Bool, true, false, some, arith,
  if◌then◌else◌, update, Option-cases, Bool-cases,
}
use resourcery.World.{Program, World, SlotState, starting, active}
use resourcery.Domain.{is_accepting}
use resourcery.Reference.{acquire_entry}
use resourcery.Registry.{Claim, closed, owner, slot, set_slot, claim, claim_active}
use resourcery.Registry.Cases.{claim_vacant_cases}
use resourcery.Registry.Ownership.{claim-eq-active, claim-eq-wait, claim-eq-vacant}
use resourcery.Context.{cleanup_of}
use resourcery.Context.Snapshot.{acquirable, result-acquire_entry, acquire_entry-eq-refused}
use resourcery.Moves.{Dead}
use resourcery.System.{idle, building, State, Step, takes_over, enters}

owner-injective : {a b c d : ℕ} → owner a b ≡ owner c d → (a ≡ c) × (b ≡ d)
owner-injective e = (cc, cc)

module _ {P : Program} (w : World P) where
  acquirable-Dead : (g : ℕ) → acquirable w g ≡ false → is_accepting w ≡ true → Dead w g
  unfolding acquirable
  acquirable-Dead g e a = ground arith

  refused-by-claim :
      (x m g : ℕ) (co : Bool) (s n : ℕ)
      → (claim_active w x m g co).1 ≡ owner s n
      → (acquire_entry w g).1 ≡ false
  unfolding claim_active
  refused-by-claim x m g co s n h = ground arith

  claim_active-eq :
      (x m g : ℕ) (co : Bool)
      → (acquire_entry w g).1 ≡ false
      → (acquire_entry w g).0 ≡ w
      → claim_active w x m g co ≡ (
          if is_accepting w
          then (set_slot w x (starting ((m + 1) % 2 ^ 64)), owner x ((m + 1) % 2 ^ 64))
          else (w, closed))
  unfolding claim_active
  claim_active-eq x m g co r e = rw (r, claim_active, e) refl

  claim_active-owner-eq :
      (x m g : ℕ) (co : Bool) (s n : ℕ)
      → (claim_active w x m g co).1 ≡ owner s n
      → (is_accepting w ≡ true)
        × Dead w g
        × (s ≡ x)
        × (n ≡ (m + 1) % 2 ^ 64)
        × ((claim_active w x m g co).0 ≡ set_slot w x (starting ((m + 1) % 2 ^ 64)))
  claim_active-owner-eq x m g co s n h =
      let r = refused-by-claim x m g co s n h in
      let gone = sym (result-acquire_entry w g) ∙ r in
      let q = claim_active-eq x m g co r (acquire_entry-eq-refused w g gone) in
      elim (Bool-cases (is_accepting w)) [
        | inl a ↦
            let q' : claim_active w x m g co
                ≡ (set_slot w x (starting ((m + 1) % 2 ^ 64)), owner x ((m + 1) % 2 ^ 64)) =
              rw a at q in
            (
              a,
              acquirable-Dead g gone a,
              ground (arith, q'),
              ground (arith, q'),
              ap (λ (r : World P × Claim). r.0) q',
            )
        | inr a ↦
            let q' : claim_active w x m g co ≡ (w, closed) = rw a at q in
            absurd (ground (arith, q'))
      ]

module _ {P : Program} (a : State P) (i t : ℕ) (key : P.Key) (co : Bool) where
  -- The caller is the owner now.
  abbrev pub owning : ℕ → ℕ → State P
  owning s n = record {
    world = (claim a.world t key co).0;
    stages = update a.stages i (building (cleanup_of t key s n));
  }

  claim-at :
      (s n x : ℕ)
      → a.stages i ≡ idle
      → slot a.world t key ≡ some x
      → (state : SlotState) → a.world.slots x ≡ state
      → (claim a.world t key co).1 ≡ owner s n
      → Step a (owning s n)
  claim-at s n x free e (starting m) p h = absurd (cc (claim-eq-wait a.world t key co x m e p))
  claim-at s n x free e (active m g) p h =
      let q = claim-eq-active a.world t key co x m g e p in
      let (accepting, dead, b, c, d) = claim_active-owner-eq a.world x m g co s n (rw q at h) in
      takes_over i t key x m g free e p accepting dead (rw (q, d, b, c) refl)

  -- A claim by which a caller that owned nothing becomes an owner, in whatever state of the domain,
  -- is one step of the race: the one at a vacant entry, or the one at a slot whose generation nobody
  -- can acquire any more.
  pub claim-Step :
      (s n : ℕ) → a.stages i ≡ idle → (claim a.world t key co).1 ≡ owner s n → Step a (owning s n)
  claim-Step s n free h = elim (Option-cases (slot a.world t key)) [
    | inl e ↦
        let q = claim-eq-vacant a.world t key co e in
        elim (claim_vacant_cases a.world t key) [
          | inl (b, r) ↦ absurd (cc (q, r, h))
          | inr (b, r) ↦
              let f : owner a.world.next_slot 1 ≡ owner s n = cc (q, r, h) in
              let (s', n') = owner-injective f in
              enters i t key free e b (rw (q, r, ← s', ← n') refl)
        ]
    | inr (x, e) ↦ claim-at s n x free e (a.world.slots x) refl h
  ]
