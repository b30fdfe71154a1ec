-- ===== src/System/Exclusion.antt =====
-- src/context.rs and src/domain.rs: who holds a canonical identity.
use resourcery.Base.{ℕ, suc, ◌^◌, ◌<◌, ◌≡◌, ap, some, arith}
use resourcery.World.{Program, Cleanup}
use resourcery.Context.{cleanup_of}
use resourcery.System.{
  building, State, Step, quiet, takes_over, enters, establishes, abandons, publishes, refuses,
  vacates, tells, waits, leaves, cleans, creates, Reach, begin, after,
}
use resourcery.System.Invariant.{Inv, Inv-initial, Acquirable, cleanup, token}
use resourcery.System.Steps.{Benign-Inv, Move-Benign}
use resourcery.System.Claims.{takes_over-Inv, enters-Inv}
use resourcery.System.Endings.{
  tells-Inv, waits-Inv, leaves-Inv, abandons-Inv, publishes-Inv, refuses-Inv, vacates-Inv,
  cleans-Inv,
}
use resourcery.System.Builds.{establishes-Inv, creates-Inv}

-- Who may hold an identity: a caller that builds for it, or a generation.
pub data Occupant : Type 0 where
  caller : (i : ℕ) → Occupant
  generation : (g : ℕ) → Occupant

module _ {P : Program} where
  Step-Inv :
      {k : ℕ} {a b : State P}
      → suc (suc k) < 2 ^ 64
      → Step a b
      → Inv k a.world a.stages
      → Inv (suc k) b.world b.stages
  Step-Inv h (quiet m q e) v = rw e (Benign-Inv (omega arith) (Move-Benign m q) v)
  Step-Inv h (takes_over i t key s n g free look state accepting dead e) v =
      rw e (takes_over-Inv v i t key s n g h free look state dead)
  Step-Inv h (enters i t key free vacant accepting e) v = rw e (enters-Inv v i t key free vacant)
  Step-Inv h (establishes i c iface s e) v = rw e (establishes-Inv v i c iface s)
  Step-Inv h (abandons i c s e) v = rw e (abandons-Inv v i c s)
  Step-Inv h (publishes i c g s e) v = rw e (publishes-Inv v i c g s)
  Step-Inv h (refuses i c g s closed e) v = rw e (refuses-Inv v i c g s closed)
  Step-Inv h (vacates i c s e) v = rw e (vacates-Inv v i c s)
  Step-Inv h (tells i s e q) v = rw q (tells-Inv v i s)
  Step-Inv h (waits i t key s n free look state e) v = rw e (waits-Inv v i s)
  Step-Inv h (leaves i s e q) v = rw q (leaves-Inv v i)
  Step-Inv h (cleans g c s over e) v = rw e (cleans-Inv v g c s over)
  Step-Inv h (creates t iface e) v = rw e (creates-Inv v t iface)

  pub Reach-Inv : {k : ℕ} {a : State P} → Reach k a → suc k < 2 ^ 64 → Inv k a.world a.stages
  Reach-Inv begin h = Inv-initial
  Reach-Inv (after {k} r s) h = Step-Inv h s (Reach-Inv r (omega arith))

  -- A caller holds the identity for which it awaits a build; a generation holds the identity that
  -- it was made for while a lease on it can be had.
  abbrev pub Occupies : State P → ℕ → P.Key → Occupant → Type 0
  Occupies a t key (caller i) = (s : ℕ) × (n : ℕ) × (a.stages i ≡ building (cleanup_of t key s n))
  Occupies a t key (generation g) =
      Acquirable a.world g × ((s : ℕ) × (n : ℕ) × (cleanup a.world g ≡ some (cleanup_of t key s n)))

  caller-ne-generation :
      {k : ℕ} {a : State P}
      → Inv k a.world a.stages
      → (t : ℕ) (key : P.Key) (i g : ℕ) → Occupies a t key (caller i)
      → ¬ Occupies a t key (generation g)
  caller-ne-generation {k} {a} v t key i g (s, n, e) (live, (s', n', f)) =
      let c : Cleanup P = cleanup_of t key s n in
      let d : Cleanup P = cleanup_of t key s' n' in
      let (look, number) = v.held g d live f in
      let same : s ≡ s' = ground (arith, v.claimed i c e) in
      v.unused i g c d e f (same, ground (arith, v.own_state i c (ap token e)))

  exclusive :
      {k : ℕ} {a : State P}
      → Inv k a.world a.stages
      → (t : ℕ) (key : P.Key) (x y : Occupant) → Occupies a t key x
      → Occupies a t key y
      → x ≡ y
  exclusive {k} {a} v t key (caller i) (caller j) (s, n, e) (s', n', f) =
      let c : Cleanup P = cleanup_of t key s n in
      let d : Cleanup P = cleanup_of t key s' n' in
      ap caller (
        v.own_distinct i j c d (ap token e) (ap token f)
          (ground (arith, v.claimed i c e, v.claimed j d f)))
  exclusive v t key (caller i) (generation g) x y = absurd (caller-ne-generation v t key i g x y)
  exclusive v t key (generation g) (caller j) x y = absurd (caller-ne-generation v t key j g y x)
  exclusive {k} {a} v t key (generation g) (generation h) (live, (s, n, e)) (live', (s', n', f)) =
      let c : Cleanup P = cleanup_of t key s n in
      let d : Cleanup P = cleanup_of t key s' n' in
      let (look, number) = v.held g c live e in
      let (look', number') = v.held h d live' f in
      let same : s ≡ s' = ground arith in
      ap generation (v.gen_distinct g h c d e f (same, ground arith))

  -- In every state that racing callers reach, in any interleaving of fewer than 2 ^ 64 - 1 steps, an
  -- identity has one holder at most: one caller that builds a generation for it, or one generation
  -- on which leases can be had, and never both.
  pub Reach-exclusive :
      {k : ℕ} {a : State P}
      → Reach k a
      → suc k < 2 ^ 64
      → (t : ℕ) (key : P.Key) (x y : Occupant) → Occupies a t key x
      → Occupies a t key y
      → x ≡ y
  Reach-exclusive r h t key x y p q = exclusive (Reach-Inv r h) t key x y p q
