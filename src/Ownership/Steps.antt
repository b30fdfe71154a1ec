-- ===== src/Ownership/Steps.antt =====
-- Every step keeps the count of leases.
use resourcery.Base.{
  ℕ, zero, suc, ◌+◌, ◌-◌, ◌<◌, ◌≡◌, refl, ap, ◌∙◌, arith, Option, some, List, ◌∷◌, ◌++◌, ◌==◌,
  ==_iff, ==_refl, if◌then◌else◌, update,
}
use resourcery.World.{Program, World, Cleanup}
use resourcery.Domain.{control}
use resourcery.Reference.{strong, set_strong, clone_ref, upgrade_entry}
use resourcery.Context.{allocate}
use resourcery.Ownership.{
  State, Step, clones, upgrades, creates, stores, takes, drops, reorders, elsewhere, Reach, begin,
  after, count, Same,
}
use resourcery.Ownership.Counts.{count-append, sum_below, sum_below-eq, sum_below_but}
use resourcery.Ownership.Invariant.{
  Owned, Owned-new, Same-Owned, share, retainers, leased-used, drop_ref-Owned,
}
use resourcery.Ownership.Frame.{retainers-eq, Kept-Owned}

some-injective : {A : Type 0} {a b : A} → some a ≡ some b → a ≡ b
some-injective e = cc

module _ {P : Program} where
  -- A reference more to a generation that has one.
  record Added (w u : World P) (g : ℕ) : Type 0 where
    leases : (k : ℕ) → strong u k ≡ (if g == k then suc (strong w k) else strong w k)
    next : u.next_generation ≡ w.next_generation
    phase : (k : ℕ) → (control u k).phase ≡ (control w k).phase

  Added-Owned :
      {w u : World P} {retains : ℕ → List ℕ} {outside : List ℕ} (g n : ℕ)
      → strong w g ≡ suc n
      → Added w u g
      → Owned w retains outside
      → Owned u retains (g ∷ outside)
  Added-Owned {w} {u} {retains} g n e a v = record {
    counted = λ k. ground (
      arith,
      a.leases k,
      v.counted k,
      retainers-eq w u retains retains k a.next (λ h l. ground (arith, a.leases h, ==_iff g h)),
    );
    unused = λ k l. ground (arith, a.leases k, a.next, v.unused k, ==_iff g k);
    ended = λ k l z. ground (arith, a.leases k, a.next, a.phase k, v.ended k, ==_iff g k);
  }

  clone_ref-Added : (w : World P) (g : ℕ) → Added w (clone_ref w g) g
  unfolding clone_ref
  clone_ref-Added w g = record {
    leases = λ k. ground (arith, ==_iff g k);
    next = refl;
    phase = λ k. ground (arith, ==_iff g k);
  }

  upgrade_entry-at :
      (w u : World P) (g n : ℕ)
      → strong w g ≡ n
      → upgrade_entry w g ≡ some u
      → Added w u g × (0 < strong w g)
  unfolding upgrade_entry
  upgrade_entry-at w u g zero e h = cc (rw (e, upgrade_entry) at h)
  upgrade_entry-at w u g (suc n) e h =
      let q : set_strong w g (suc (suc n)) ≡ u = some-injective (rw (e, upgrade_entry) at h) in
      rw (← q) (
        record {
          leases = λ k. ground (arith, ==_iff g k);
          next = refl;
          phase = λ k. ground (arith, ==_iff g k);
        },
        omega arith,
      )

  upgrade_entry-Added :
      (w u : World P) (g : ℕ) → upgrade_entry w g ≡ some u → Added w u g × (0 < strong w g)
  upgrade_entry-Added w u g h = upgrade_entry-at w u g (strong w g) refl h

  -- The new interface retains what it was made with.
  retainers-allocate :
      (w : World P) (retains : ℕ → List ℕ) (t : ℕ) (f : Option (Cleanup P)) (i : P.Interface)
      (refs : List ℕ) (k : ℕ)
      → retainers (allocate w t f i) (update retains w.next_generation refs) k
        ≡ count k refs + retainers w retains k
  unfolding allocate sum_below
  retainers-allocate w retains t f i refs k =
      let summand = share (allocate w t f i) (update retains w.next_generation refs) k in
      let fresh : summand w.next_generation ≡ count k refs =
        ground (arith, ==_refl w.next_generation) in
      let old =
        sum_below-eq w.next_generation summand (share w retains k)
          (λ h l. ground (arith, ==_iff w.next_generation h)) in
      let last : w.next_generation + 1 ≡ suc w.next_generation = omega arith in
      ap (λ (m : ℕ). sum_below m summand) last ∙ omega (arith, fresh, old)

  allocate-Owned :
      {w : World P} {retains : ℕ → List ℕ} {outside : List ℕ} (t : ℕ) (f : Option (Cleanup P))
      (i : P.Interface) (refs rest : List ℕ)
      → Same outside (refs ++ rest)
      → Owned w retains outside
      → Owned (allocate w t f i) (update retains w.next_generation refs) (w.next_generation ∷ rest)
  unfolding allocate
  allocate-Owned {w} {retains} t f i refs rest s v = record {
    counted = λ k. ground (
      arith,
      retainers-allocate w retains t f i refs k,
      v.counted k,
      v.unused k,
      s k,
      count-append k refs rest,
    );
    unused = λ k l. ground (arith, v.unused k);
    ended = λ k l z. ground (arith, v.ended k);
  }

  -- The interface of a generation with leases retains other references.
  retainers-update :
      (w : World P) (retains : ℕ → List ℕ) (h n k : ℕ) (refs : List ℕ)
      → strong w h ≡ suc n
      → h < w.next_generation
      → retainers w (update retains h refs) k + count k (retains h)
        ≡ retainers w retains k + count k refs
  retainers-update w retains h n k refs e l = ground (
    arith,
    ==_refl h,
    sum_below_but w.next_generation (share w retains k) (share w (update retains h refs) k) h l
        (λ j q. ground (arith, ==_iff h j)),
  )

  stores-Owned :
      {w : World P} {retains : ℕ → List ℕ} {outside : List ℕ} (h g n : ℕ) (rest : List ℕ)
      → strong w h ≡ suc n
      → Same outside (g ∷ rest)
      → Owned w retains outside
      → Owned w (update retains h (g ∷ retains h)) rest
  stores-Owned {w} {retains} h g n rest e s v =
      let l = leased-used v h n e in
      record {
        counted = λ k.
            ground (arith, v.counted k, s k, retainers-update w retains h n k (g ∷ retains h) e l);
        unused = v.unused;
        ended = v.ended;
      }

  takes-Owned :
      {w : World P} {retains : ℕ → List ℕ} {outside : List ℕ} (h g n : ℕ) (left : List ℕ)
      → strong w h ≡ suc n
      → Same (retains h) (g ∷ left)
      → Owned w retains outside
      → Owned w (update retains h left) (g ∷ outside)
  takes-Owned {w} {retains} h g n left e s v =
      let l = leased-used v h n e in
      record {
        counted = λ k. ground (arith, v.counted k, s k, retainers-update w retains h n k left e l);
        unused = v.unused;
        ended = v.ended;
      }

  Step-Owned :
      {a b : State P}
      → Step a b
      → Owned a.world a.retains a.outside
      → Owned b.world b.retains b.outside
  Step-Owned {a} (clones g n h e) v = rw e (Added-Owned g n h (clone_ref-Added a.world g) v)
  Step-Owned {a} (upgrades g u h e) v =
      let (added, l) = upgrade_entry-Added a.world u g h in
      rw e (Added-Owned g (strong a.world g - 1) (omega arith) added v)
  Step-Owned (creates t f i refs rest s e) v = rw e (allocate-Owned t f i refs rest s v)
  Step-Owned (stores h g n rest l s e) v = rw e (stores-Owned h g n rest l s v)
  Step-Owned (takes h g n left l s e) v = rw e (takes-Owned h g n left l s v)
  Step-Owned (drops g rest s e) v = rw e (drop_ref-Owned g (Same-Owned s v))
  Step-Owned (reorders xs s e) v = rw e (Same-Owned s v)
  Step-Owned (elsewhere m q e) v = rw e (Kept-Owned m q v)

  -- In every state that a new domain reaches, however its references are cloned, upgraded, moved
  -- into interfaces and out of them, and dropped, and whatever else happens: the strong count of a
  -- generation is the number of references to it outside of interfaces and in the interfaces of
  -- generations that have leases themselves; and the control of a generation without leases is in
  -- the phase `Cancelling` or `Finished`.
  pub Reach-Owned : {a : State P} → Reach a → Owned a.world a.retains a.outside
  Reach-Owned (begin retains) = Owned-new retains
  Reach-Owned (after r s) = Step-Owned s (Reach-Owned r)
