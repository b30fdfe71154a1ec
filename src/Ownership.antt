-- ===== src/Ownership.antt =====
-- src/reference.rs, the references that interfaces retain: the dependencies of the README.
--
-- A `ResourceRef` is held by an interface, or outside of all interfaces: by a task, by a caller, by
-- the application. The last one to a generation drops its `Entry`: `Drop` cancels the control, and
-- the fields of the entry are dropped after it, with the references that the interface retains.
pub mod Counts
pub mod Invariant
pub mod Release
mod Frame
pub mod Steps
pub mod Reclamation
pub mod Operations
pub mod Acquisitions
pub mod Creations
pub mod Refinement
use resourcery.Base.{
  ℕ, suc, zero, ◌<◌, ◌≡◌, Option, none, some, List, [], ◌∷◌, ◌++◌, ◌==◌, if◌then◌else◌, update,
}
use resourcery.World.{Program, World, Cleanup, new_world}
use resourcery.Domain
use resourcery.Reference.{strong, drop_ref, clone_ref, upgrade_entry}
use resourcery.Context.{allocate}
use resourcery.Moves.{
  Move, registers, closes, shuts, cancels, finishes, leases, releases, reclaims, opens, installs,
  removes, lists, unlists, allocates, supervises, calls_out,
}

-- How often `g` is among the references.
abbrev pub count : ℕ → List ℕ → ℕ
count g [] = 0
count g (x ∷ xs) = if x == g then suc (count g xs) else count g xs

-- The same references, in any order.
abbrev pub Same : List ℕ → List ℕ → Type 0
Same xs ys = (g : ℕ) → count g xs ≡ count g ys

module _ {P : Program} where
  -- What is to be dropped once the reference to `g` is: the last one frees what `g` retains.
  abbrev pub freed : (ℕ → List ℕ) → World P → ℕ → List ℕ
  freed retains w g = if strong w g == 1 then retains g else []

  -- The end of references, one after another: the references that an interface retains end before
  -- the next. `none` means that the fuel ran out.
  unfoldable pub release : (ℕ → List ℕ) → ℕ → World P → List ℕ → Option (World P)
  release retains fuel w [] = some w
  release retains zero w (g ∷ pending) = none
  release retains (suc fuel) w (g ∷ pending) =
      release retains fuel (drop_ref w g) (freed retains w g ++ pending)

module _ (P : Program) where
  pub record State : Type 0 where
    pub world : World P
    -- the references that the interface of each generation retains
    pub retains : ℕ → List ℕ
    -- the references that are not in an interface
    pub outside : List ℕ

module _ {P : Program} where
  -- The actions that neither add nor end a reference, nor make an entry.
  abbrev pub Unowned : {w u : World P} → Move w u → Type 0
  Unowned (leases g n h e) = ⊥
  Unowned (releases g n h e) = ⊥
  Unowned (allocates t f i e) = ⊥
  Unowned _ = Unit

  pub data Step (a b : State P) : Type 0 where
    -- `ResourceRef::clone`, of a reference that there is
    clones :
        (g n : ℕ)
        → strong a.world g ≡ suc n
        → b ≡ record a { world = clone_ref a.world g; outside = g ∷ a.outside }
        → Step a b
    -- `Weak::upgrade`
    upgrades :
        (g : ℕ) (u : World P)
        → upgrade_entry a.world g ≡ some u
        → b ≡ record a { world = u; outside = g ∷ a.outside }
        → Step a b
    -- `Arc::new` of an entry, into whose interface some references are moved
    creates :
        (t : ℕ) (f : Option (Cleanup P)) (i : P.Interface) (refs rest : List ℕ)
        → Same a.outside (refs ++ rest)
        → b ≡ record {
          world = allocate a.world t f i;
          retains = update a.retains a.world.next_generation refs;
          outside = a.world.next_generation ∷ rest;
        }
        → Step a b
    -- a reference is moved into an interface that is there, or out of it
    stores :
        (h g n : ℕ) (rest : List ℕ)
        → strong a.world h ≡ suc n
        → Same a.outside (g ∷ rest)
        → b ≡ record a { retains = update a.retains h (g ∷ a.retains h); outside = rest }
        → Step a b
    takes :
        (h g n : ℕ) (left : List ℕ)
        → strong a.world h ≡ suc n
        → Same (a.retains h) (g ∷ left)
        → b ≡ record a { retains = update a.retains h left; outside = g ∷ a.outside }
        → Step a b
    -- a reference ends: if it was the last one, the references that the interface retains are the
    -- next to end
    drops :
        (g : ℕ) (rest : List ℕ)
        → Same a.outside (g ∷ rest)
        → b ≡ record a { world = drop_ref a.world g; outside = freed a.retains a.world g ++ rest }
        → Step a b
    -- the references outside are in no order
    reorders : (xs : List ℕ) → Same a.outside xs → b ≡ record a { outside = xs } → Step a b
    elsewhere :
        {u : World P} (m : Move a.world u) → Unowned m → b ≡ record a { world = u } → Step a b

  pub data Reach : State P → Type 0 where
    begin :
        (retains : ℕ → List ℕ)
        → Reach (record { world = new_world; retains = retains; outside = [] })
    after : {a b : State P} → Reach a → Step a b → Reach b
