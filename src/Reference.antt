-- ===== src/Reference.antt =====
-- src/reference.rs: leases on a generation, and the observers of its outcome.
--
-- A `ResourceRef` is one strong count of its generation's `Arc<Entry>`; a `WeakResourceRef` and
-- the registries hold `Weak`s, which the strong count does not see.
pub mod Leases
pub mod Waiting
pub mod Handles
use resourcery.Base.{
  ℕ, zero, suc, ◌+◌, Bool, true, false, Option, none, some, List, [], ◌∷◌, if◌then◌else◌, update,
}
use resourcery.World.{Program, World, Outcome, aborted}
use resourcery.Domain.{cancel_control, try_acquire}

module _ {P : Program} where
  abbrev pub strong : World P → ℕ → ℕ
  strong w g = (w.generations g).strong

  abbrev pub set_strong : World P → ℕ → ℕ → World P
  set_strong w g n = record w {
    generations = update w.generations g (record (w.generations g) { strong = n });
  }

  -- `ResourceRef::clone`, of a reference that the caller holds.
  unfoldable pub clone_ref : World P → ℕ → World P
  clone_ref w g = set_strong w g (strong w g + 1)

  -- The end of a `ResourceRef`: the last one drops the `Entry`, whose `Drop` cancels the control.
  unfoldable pub drop_ref : World P → ℕ → World P
  unfolding cancel_control
  drop_ref w g = elim (strong w g) [
    | zero ↦ w
    | suc n ↦ elim n [ zero ↦ cancel_control (set_strong w g 0) g | suc m ↦ set_strong w g (suc m) ]
  ]

  -- `Weak::upgrade` on the entry: it adds a lease, unless the last one is gone.
  unfoldable pub upgrade_entry : World P → ℕ → Option (World P)
  upgrade_entry w g = elim (strong w g) [
    | zero ↦ none
    | suc n ↦ some (set_strong w g (suc (suc n)))
  ]

  -- A weak entry is upgraded, and the lease kept if `try_acquire` allows it: the common part of
  -- `get`, `status`, `all`, `claim_inner` and `WeakResourceRef::upgrade`.
  unfoldable pub acquire_entry : World P → ℕ → World P × Bool
  unfolding upgrade_entry try_acquire drop_ref
  acquire_entry w g = elim (upgrade_entry w g) [
    | none ↦ (w, false)
    | some w' ↦ if try_acquire w' g then (w', true) else (drop_ref w' g, false)
  ]

  -- `WeakResourceRef::upgrade`; the result says whether a `ResourceRef` was returned.
  unfoldable pub upgrade : World P → ℕ → World P × Bool
  unfolding upgrade_entry try_acquire drop_ref
  upgrade w g = elim (upgrade_entry w g) [
    | none ↦ (w, false)
    | some w' ↦
        if w'.domain_alive
        then (if try_acquire w' g then (w', true) else (drop_ref w' g, false))
        else (drop_ref w' g, false)
  ]

-- What one round of `ResourceCompletion::wait` meets in the `watch` channel: the value that it
-- borrows, and whether `changed` then fails because the sender is gone.
pub record Observed (E : Type 0) : Type 0 where
  pub value : Option (Outcome E)
  pub closed : Bool

-- `ResourceCompletion::wait`; `none` means that it waits still when the rounds are over.
unfoldable pub wait : {E : Type 0} → List (Observed E) → Option (Outcome E)
wait [] = none
wait (o ∷ rest) =
    let again = wait rest in
    elim o.value [ some outcome ↦ some outcome | none ↦ if o.closed then some aborted else again ]
