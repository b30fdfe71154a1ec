-- ===== src/Ownership/Invariant.antt =====
-- Every lease that is counted is a reference that somebody holds.
use resourcery.Base.{
  ℕ, zero, suc, ◌-◌, ◌+◌, ◌<◌, ◌≤◌, ◌≡◌, ◌≢◌, refl, ap, ◌∙◌, arith, inl, inr, false, List, [], ◌∷◌,
  ◌++◌, ◌==◌, ==_iff, ==_refl, if◌then◌else◌, Bool-cases,
}
use native.Mathlib.Decide.{dec_lt}
use resourcery.Lifecycle
use resourcery.Lifecycle.{cancellable}
use resourcery.World.{Program, World, new_world}
use resourcery.Domain.{control, cancel_control}
use resourcery.Reference.{strong, drop_ref}
use resourcery.Ownership.{count, freed, Same}
use resourcery.Ownership.Counts.{count-append, sum_below, sum_below-eq, sum_below_but}

module _ {P : Program} where
  -- How often the interface of `h` retains `k`: not at all, once it is dropped.
  abbrev pub share : World P → (ℕ → List ℕ) → ℕ → ℕ → ℕ
  share w retains k h = if strong w h == 0 then 0 else count k (retains h)

  abbrev pub retainers : World P → (ℕ → List ℕ) → ℕ → ℕ
  retainers w retains k = sum_below w.next_generation (share w retains k)

  pub record Owned (w : World P) (retains : ℕ → List ℕ) (outside : List ℕ) : Type 0 where
    -- the leases of a generation are the references outside, and those that live interfaces retain
    pub counted : (k : ℕ) → strong w k ≡ count k outside + retainers w retains k
    pub unused : (k : ℕ) → w.next_generation ≤ k → strong w k ≡ 0
    -- a generation without leases was cancelled, or is finished
    pub ended :
        (k : ℕ) → k < w.next_generation → strong w k ≡ 0 → cancellable (control w k).phase ≡ false

  pub Owned-new : (retains : ℕ → List ℕ) → Owned (new_world {P = P}) retains []
  unfolding new_world sum_below
  Owned-new retains = record {
    counted = λ k. omega arith;
    unused = λ k h. refl;
    ended = λ k h e. absurd (omega arith);
  }

  -- The order of the references outside does not matter.
  pub Same-Owned :
      {w : World P} {retains : ℕ → List ℕ} {xs ys : List ℕ}
      → Same xs ys
      → Owned w retains xs
      → Owned w retains ys
  Same-Owned s v = record {
    counted = λ k. omega (arith, v.counted k, s k);
    unused = v.unused;
    ended = v.ended;
  }

  pub leased-used :
      {w : World P} {retains : ℕ → List ℕ} {outside : List ℕ}
      → Owned w retains outside
      → (g n : ℕ) → strong w g ≡ suc n
      → g < w.next_generation
  leased-used {w} v g n e = elim (dec_lt g w.next_generation) [
    | yes h ↦ h
    | no h ↦ absurd (omega (arith, v.unused g (omega arith)))
  ]

  -- What the end of a reference does to the counts.
  pub record Dropped (w u : World P) (g n : ℕ) : Type 0 where
    pub leases : (k : ℕ) → strong u k ≡ (if g == k then n else strong w k)
    pub next : u.next_generation ≡ w.next_generation
    pub phase :
        (k : ℕ)
        → cancellable (control u k).phase ≡ (
            if g == k
            then (if n == 0 then false else cancellable (control w k).phase)
            else cancellable (control w k).phase)

  pub drop_ref-Dropped : (w : World P) (g n : ℕ) → strong w g ≡ suc n → Dropped w (drop_ref w g) g n
  unfolding drop_ref cancel_control Lifecycle.cancel
  drop_ref-Dropped w g zero e = record {
    leases = λ k. ground arith;
    next = ground arith;
    phase = λ k. ground (arith, ==_refl g, ==_iff g k);
  }
  drop_ref-Dropped w g (suc n) e = record {
    leases = λ k. ground arith;
    next = ground arith;
    phase = λ k. ground (arith, ==_refl g, ==_iff g k);
  }

  module _ (retains : ℕ → List ℕ) {w u : World P} {g n : ℕ} (d : Dropped w u g n)
      (e : strong w g ≡ suc n) where
    -- A lease that is not the last one: every interface stays.
    share-other : (k : ℕ) → n ≢ 0 → (h : ℕ) → share u retains k h ≡ share w retains k h
    share-other k p h = ground (arith, d.leases h, ==_iff g h)

    -- The last one: the interface of `g` goes.
    share-last : (k : ℕ) (h : ℕ) → h ≢ g → share u retains k h ≡ share w retains k h
    share-last k h q = ground (arith, d.leases h, ==_iff g h)

    retainers-next :
        (k : ℕ) → retainers u retains k ≡ sum_below w.next_generation (share u retains k)
    retainers-next k = ap (λ (m : ℕ). sum_below m (share u retains k)) d.next

    retainers-other : (k : ℕ) → n ≢ 0 → retainers u retains k ≡ retainers w retains k
    retainers-other k p =
        retainers-next k
        ∙ sum_below-eq w.next_generation (share u retains k) (share w retains k)
            (λ h l. share-other k p h)

    retainers-last :
        (k : ℕ)
        → n ≡ 0
        → g < w.next_generation
        → retainers u retains k + count k (retains g) ≡ retainers w retains k
    retainers-last k p l = ground (
      arith,
      retainers-next k,
      sum_below_but w.next_generation (share w retains k) (share u retains k) g l (share-last k),
      d.leases g,
      ==_refl g,
    )

    -- Whether it is the last one or not, the references go where they belong.
    pub counted-Dropped :
        (rest : List ℕ)
        → Owned w retains (g ∷ rest)
        → (k : ℕ) → strong u k ≡ count k (freed retains w g ++ rest) + retainers u retains k
    counted-Dropped rest v k = elim (Bool-cases (n == 0)) [
      | inl z ↦
          let p : n ≡ 0 = ground arith in
          let l = leased-used v g n e in
          ground (
            arith,
            count-append k (retains g) rest,
            d.leases k,
            v.counted k,
            v.counted g,
            retainers-last k p l,
            retainers-last g p l,
            ==_iff g k,
          )
      | inr s ↦
          ground (arith, d.leases k, v.counted k, retainers-other k (ground arith), ==_iff g k)
    ]

  -- The end of a reference that is held outside.
  pub drop_ref-Owned :
      {w : World P} {retains : ℕ → List ℕ} {rest : List ℕ} (g : ℕ)
      → Owned w retains (g ∷ rest)
      → Owned (drop_ref w g) retains (freed retains w g ++ rest)
  drop_ref-Owned {w} {retains} {rest} g v =
      let n = strong w g - 1 in
      let e : strong w g ≡ suc n = ground (arith, v.counted g, ==_refl g) in
      let d = drop_ref-Dropped w g n e in
      record {
        counted = counted-Dropped retains d e rest v;
        unused =
            λ k l. ground (arith, d.leases k, d.next, v.unused k, leased-used v g n e, ==_iff g k);
        ended = λ k l z. ground (arith, d.leases k, d.next, d.phase k, v.ended k, ==_iff g k);
      }
