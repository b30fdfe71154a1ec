-- ===== src/System/Invariant.antt =====
-- What holds of identities, slots and generations in every state that racing callers reach.
use resourcery.Base.{ℕ, suc, ◌≤◌, ◌<◌, ◌≡◌, refl, true, Option, none, some, arith}
use resourcery.Lifecycle
use resourcery.World.{Program, Cleanup, World, starting, active, new_world}
use resourcery.Registry.{slot, generation_of}
use resourcery.Context.Snapshot.{acquirable}
use resourcery.System.{Stage, idle, building, created, failing, telling, waiting}

module _ {P : Program} where
  -- The construction that a caller owns.
  abbrev pub token : Stage P → Option (Cleanup P)
  token idle = none
  token (building c) = some c
  token (created c g) = some c
  token (failing c) = some c
  token (telling s) = none
  token (waiting s) = none

  abbrev pub cleanup : World P → ℕ → Option (Cleanup P)
  cleanup w g = (w.generations g).on_finish

  abbrev pub Acquirable : World P → ℕ → Type 0
  Acquirable w g = acquirable w g ≡ true

  -- The construction numbers of two owners or generations are those of one slot's same generation.
  abbrev pub Alike : Cleanup P → Cleanup P → Type 0
  Alike c d = (c.slot ≡ d.slot) × (c.generation ≡ d.generation)

  pub record Inv (k : ℕ) (w : World P) (stages : ℕ → Stage P) : Type 0 where
    pub bounded : (s : ℕ) → generation_of (w.slots s) ≤ suc k
    pub known : (t : ℕ) (key : P.Key) (s : ℕ) → slot w t key ≡ some s → s < w.next_slot
    pub fresh : (g : ℕ) → w.next_generation ≤ g → cleanup w g ≡ none
    pub gen_slot : (g : ℕ) (c : Cleanup P) → cleanup w g ≡ some c → c.slot < w.next_slot
    pub gen_number :
        (g : ℕ) (c : Cleanup P)
        → cleanup w g ≡ some c
        → c.generation ≤ generation_of (w.slots c.slot)
    pub gen_distinct :
        (g h : ℕ) (c d : Cleanup P)
        → cleanup w g ≡ some c
        → cleanup w h ≡ some d
        → Alike c d
        → g ≡ h
    pub own_slot : (i : ℕ) (c : Cleanup P) → token (stages i) ≡ some c → c.slot < w.next_slot
    pub own_state :
        (i : ℕ) (c : Cleanup P) → token (stages i) ≡ some c → w.slots c.slot ≡ starting c.generation
    pub own_distinct :
        (i j : ℕ) (c d : Cleanup P)
        → token (stages i) ≡ some c
        → token (stages j) ≡ some d
        → c.slot ≡ d.slot
        → i ≡ j
    pub unused :
        (i g : ℕ) (c d : Cleanup P) → stages i ≡ building c → cleanup w g ≡ some d → ¬ Alike c d
    pub made : (i g : ℕ) (c : Cleanup P) → stages i ≡ created c g → cleanup w g ≡ some c
    pub lost :
        (i g : ℕ) (c d : Cleanup P)
        → stages i ≡ failing c
        → cleanup w g ≡ some d
        → Alike c d
        → ¬ Acquirable w g
    pub held :
        (g : ℕ) (c : Cleanup P)
        → Acquirable w g
        → cleanup w g ≡ some c
        → (slot w c.type_id c.key ≡ some c.slot) × (generation_of (w.slots c.slot) ≡ c.generation)
    pub installed :
        (s n g : ℕ)
        → w.slots s ≡ active n g
        → (c : Cleanup P) × (cleanup w g ≡ some c) × (c.slot ≡ s) × (c.generation ≡ n)
    pub claimed :
        (i : ℕ) (c : Cleanup P) → stages i ≡ building c → slot w c.type_id c.key ≡ some c.slot

  pub Inv-initial : Inv 0 (new_world {P = P}) (λ i. idle)
  unfolding new_world slot Lifecycle.new acquirable
  Inv-initial = record {
    bounded = λ s. omega arith;
    known = λ t key s e. absurd (cc (P.entries.get-empty key));
    fresh = λ g h. refl;
    gen_slot = λ g c e. cc;
    gen_number = λ g c e. cc;
    gen_distinct = λ g h c d e f a. cc;
    own_slot = λ i c e. cc;
    own_state = λ i c e. cc;
    own_distinct = λ i j c d e f a. cc;
    unused = λ i g c d e f a. cc;
    made = λ i g c e. cc;
    lost = λ i g c d e f a. cc;
    held = λ g c a e. cc;
    installed = λ s n g e. absurd (cc e);
    claimed = λ i c e. cc;
  }
