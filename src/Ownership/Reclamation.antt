-- ===== src/Ownership/Reclamation.antt =====
-- What becomes of generations that nobody needs any more.
use resourcery.Base.{
  ◌≤◌, refl, inl, inr, Bool-cases, ◌==◌, ==_iff, ◌++◌, List, ◌∷◌, some, sym, ◌∙◌, ℕ, zero, suc, ◌+◌,
  ◌-◌, ◌<◌, ◌≡◌, subst, arith, [], false,
}
use mathlib.Core.List.{append-nil}
use resourcery.Lifecycle.{cancellable}
use resourcery.World.{Program, World}
use resourcery.Domain.{control, cancel_control}
use resourcery.Reference.{strong, drop_ref}
use resourcery.Ownership.{State, Reach, count, release, freed}
use resourcery.Ownership.Counts.{sum_below, sum_below-pos, le-sum_below}
use resourcery.Ownership.Invariant.{Owned, share, leased-used, drop_ref-Dropped}
use resourcery.Ownership.Release.{total, release-Ends}
use resourcery.Ownership.Steps.{Reach-Owned}

module _ {P : Program} where
  -- No cycle: a live interface retains references to generations of a lower rank only.
  abbrev pub IsRanked : (ℕ → ℕ) → State P → Type 0
  IsRanked rank a = (h k : ℕ) → 0 < strong a.world h → 0 < count k (a.retains h) → rank k < rank h

  module _ (a : State P) where
    -- A generation with leases, when there are no references outside, is retained by another one.
    retainer :
        Owned a.world a.retains []
        → (k : ℕ) → 0 < strong a.world k
        → (h : ℕ) × (h < a.world.next_generation)
          × (0 < strong a.world h)
          × (0 < count k (a.retains h))
    retainer v k p =
        let (h, l, s) =
          sum_below-pos a.world.next_generation (share a.world a.retains k)
            (omega (arith, v.counted k)) in
        (h, l, ground arith, ground arith)

    -- A chain of retainers climbs in rank, and the ranks are bounded.
    no-lease :
        (rank : ℕ → ℕ)
        → IsRanked rank a
        → Owned a.world a.retains []
        → (d k : ℕ) → sum_below a.world.next_generation rank < rank k + d
        → ¬ (0 < strong a.world k)
    no-lease rank acyclic v zero k p q =
        let l = leased-used v k (strong a.world k - 1) (omega arith) in
        absurd (omega (arith, le-sum_below a.world.next_generation rank k l))
    no-lease rank acyclic v (suc d) k p q =
        let (h, l, s, c) = retainer v k q in
        no-lease rank acyclic v d h (omega (arith, acyclic h k s c)) s

  -- If no reference is held outside of interfaces, and the live interfaces retain one another in no
  -- cycle, nothing is left alive.
  Reach-Reclaimed :
      (a : State P) (rank : ℕ → ℕ)
      → Reach a
      → a.outside ≡ []
      → IsRanked rank a
      → (k : ℕ) → k < a.world.next_generation
      → (strong a.world k ≡ 0) × (cancellable (control a.world k).phase ≡ false)
  Reach-Reclaimed a rank r e acyclic k l =
      let v = subst (Owned a.world a.retains) e (Reach-Owned r) in
      let bound = suc (sum_below a.world.next_generation rank) in
      let n = no-lease a rank acyclic v bound k (omega arith) in
      let z : strong a.world k ≡ 0 = ground arith in (z, v.ended k l z)

  -- The end of references adds no lease.
  strong-drop_ref : (w : World P) (g k : ℕ) → strong (drop_ref w g) k ≤ strong w k
  unfolding drop_ref
  strong-drop_ref w g k = elim (Bool-cases (strong w g == 0)) [
    | inl z ↦ ground (arith, z)
    | inr s ↦
        let n = strong w g - 1 in
        let d = drop_ref-Dropped w g n (ground arith) in ground (arith, d.leases k, ==_iff g k)
  ]

  record Less (w u : World P) : Type 0 where
    leases : (k : ℕ) → strong u k ≤ strong w k
    next : u.next_generation ≡ w.next_generation

  drop_ref-Less : (w : World P) (g : ℕ) → Less w (drop_ref w g)
  unfolding drop_ref cancel_control
  drop_ref-Less w g = record { leases = strong-drop_ref w g; next = ground arith }

  release-Less :
      (retains : ℕ → List ℕ) (fuel : ℕ) (w u : World P) (pending : List ℕ)
      → release retains fuel w pending ≡ some u
      → Less w u
  unfolding release
  release-Less retains fuel w u [] e =
      let same : w ≡ u = cc in rw (← same) (record { leases = λ k. omega arith; next = refl })
  release-Less retains zero w u (g ∷ pending) e = cc
  release-Less retains (suc fuel) w u (g ∷ pending) e =
      let one = drop_ref-Less w g in
      let more = release-Less retains fuel (drop_ref w g) u (freed retains w g ++ pending) e in
      record {
        leases = λ k. omega (arith, one.leases k, more.leases k);
        next = more.next ∙ one.next;
      }

  -- In every state that a new domain reaches, if the live interfaces retain one another in no cycle:
  -- when all references that are held outside of interfaces end, this comes to an end with all
  -- that follows from it, and nothing is left alive. Every generation that was ever made is without
  -- leases, and its control is in the phase `Cancelling` or `Finished`.
  pub release-Reclaims :
      (a : State P) (rank : ℕ → ℕ)
      → Reach a
      → IsRanked rank a
      → (k : ℕ) → k < a.world.next_generation
      → (u : World P) × (release a.retains (total a.world) a.world a.outside ≡ some u)
        × (strong u k ≡ 0)
        × (cancellable (control u k).phase ≡ false)
  release-Reclaims a rank r acyclic k l =
      let (u, e, q) = release-Ends a a.outside [] r (sym (append-nil a.outside)) in
      let less = release-Less a.retains (total a.world) a.world u a.outside e in
      let left = record a { world = u; outside = [] } in
      let still : IsRanked rank left = λ h j p c. acyclic h j (omega (arith, less.leases h)) c in
      let (z, f) = Reach-Reclaimed left rank q refl still k (omega (arith, less.next)) in
      (u, e, z, f)
