-- ===== src/Ownership/Refinement.antt =====
-- src/context.rs, src/domain.rs and src/reference.rs: what the operations that give references out do
-- to the references that are held.
use resourcery.Base.{ℕ, Bool, Option, List, ◌++◌, update}
use resourcery.World.{Program, Cleanup}
use resourcery.Reference.{upgrade}
use resourcery.Registry.{claim}
use resourcery.Context.{get, all, establish}
use resourcery.Ownership.{State, Reach, Same}
use resourcery.Ownership.Operations.{with_refs, Owns, given_if, get-Owns, upgrade-Owns}
use resourcery.Ownership.Acquisitions.{OwnsClaim, claim-Owns, all-Owns}
use resourcery.Ownership.Creations.{settled_refs, establish-Made}

-- In every state that a new domain reaches: `get`, the upgrade of a weak reference, `claim`, `all` and
-- the creation after the build lead to states that a new domain reaches, on every branch of them, and
-- the references that they return are all that they add to those held outside of interfaces. A lease
-- that an operation takes only to look, it gives back. A creation takes the references out that its
-- interface is to retain; if it fails, they are back outside.
pub operations-Own :
    {P : Program} (a : State P)
    → Reach a
    → (t g : ℕ) (key : P.Key) (create_only : Bool) (on_finish : Option (Cleanup P))
      (interface : P.Interface) (refs rest : List ℕ)
    → Same a.outside (refs ++ rest)
    → Owns a (get a.world t key)
      × Owns a (given_if g (upgrade a.world g))
      × OwnsClaim a (claim a.world t key create_only)
      × Reach (with_refs a (all a.world t).0 ((all a.world t).1 ++ a.outside))
      × Reach (record {
        world = (establish a.world t on_finish interface).0;
        retains = update a.retains a.world.next_generation refs;
        outside = settled_refs (establish a.world t on_finish interface).1 refs rest;
      })
operations-Own a r t g key create_only on_finish interface refs rest s = (
  get-Owns a r t key,
  upgrade-Owns a r g,
  claim-Owns a r t key create_only,
  all-Owns a r t,
  establish-Made a r t on_finish interface refs rest s,
)
