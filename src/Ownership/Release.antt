-- ===== src/Ownership/Release.antt =====
-- The end of a reference, with all that follows from it.
use resourcery.Base.{
  ℕ, zero, suc, ◌-◌, ◌<◌, ◌≤◌, ◌≡◌, refl, ap, subst, arith, some, List, [], ◌∷◌, ◌++◌, ==_iff,
  ==_refl,
}
use mathlib.Core.List.{append_assoc}
use resourcery.World.{Program, World}
use resourcery.Reference.{strong, drop_ref}
use resourcery.Ownership.{State, Reach, after, drops, release, freed}
use resourcery.Ownership.Counts.{sum_below, sum_below_but}
use resourcery.Ownership.Invariant.{Owned, drop_ref-Dropped, leased-used}
use resourcery.Ownership.Steps.{Reach-Owned}

module _ {P : Program} where
  -- All the leases that there are.
  abbrev pub total : World P → ℕ
  total w = sum_below w.next_generation (strong w)

  total-drop_ref :
      (w : World P) (g n : ℕ)
      → strong w g ≡ suc n
      → g < w.next_generation
      → suc (total (drop_ref w g)) ≡ total w
  total-drop_ref w g n e l =
      let d = drop_ref-Dropped w g n e in
      let next : total (drop_ref w g) ≡ sum_below w.next_generation (strong (drop_ref w g)) =
        ap (λ (m : ℕ). sum_below m (strong (drop_ref w g))) d.next in
      ground (
        arith,
        next,
        d.leases g,
        ==_refl g,
        sum_below_but w.next_generation (strong w) (strong (drop_ref w g)) g l
            (λ h q. ground (arith, d.leases h, ==_iff g h)),
      )

  -- A reference outside is a lease.
  held :
      {w : World P} {retains : ℕ → List ℕ} {others : List ℕ} (g : ℕ)
      → Owned w retains (g ∷ others)
      → strong w g ≡ suc (strong w g - 1)
  held g v = ground (arith, v.counted g, ==_refl g)

  falls :
      {w : World P} {retains : ℕ → List ℕ} {others : List ℕ} (g : ℕ)
      → Owned w retains (g ∷ others)
      → suc (total (drop_ref w g)) ≡ total w
  falls {w} g v =
      total-drop_ref w g (strong w g - 1) (held g v) (leased-used v g (strong w g - 1) (held g v))

  released :
      (fuel : ℕ) (w : World P) (retains : ℕ → List ℕ) (pending others : List ℕ)
      → Reach (record { world = w; retains = retains; outside = pending ++ others })
      → total w ≤ fuel
      → (u : World P) × (release retains fuel w pending ≡ some u)
        × Reach (record { world = u; retains = retains; outside = others })
  unfolding release
  released fuel w retains [] others r h = (w, refl, r)
  released zero w retains (g ∷ pending) others r h = absurd (omega (arith, falls g (Reach-Owned r)))
  released (suc fuel) w retains (g ∷ pending) others r h =
      let next = after r (drops g (pending ++ others) (λ k. refl) refl) in
      let same = append_assoc (freed retains w g) pending others in
      released fuel (drop_ref w g) retains (freed retains w g ++ pending) others (rw same next)
        (omega (arith, falls g (Reach-Owned r)))

  -- In every state that a new domain reaches: when references that are held outside of interfaces
  -- end, one after another, each with all that follows from it, this comes to an end after at most
  -- as many references as there are leases in all, retained in a cycle or not; it is a run of the
  -- steps, and leaves the other references outside as they are.
  pub release-Ends :
      (a : State P) (pending others : List ℕ)
      → Reach a
      → a.outside ≡ pending ++ others
      → (u : World P) × (release a.retains (total a.world) a.world pending ≡ some u)
        × Reach (record a { world = u; outside = others })
  release-Ends a pending others r e =
      released (total a.world) a.world a.retains pending others
        (subst (λ (xs : List ℕ). Reach (record a { outside = xs })) e r) (omega arith)
