-- ===== src/Reference/Handles.antt =====
-- src/reference.rs: the handles on a generation, and what each of them gives access to.
use resourcery.Base.{
  ==_refl, ℕ, suc, ◌&&◌, if◌then◌else◌, ◌<◌, ◌≡◌, refl, ap, Bool, true, false, Option, none, some,
  List, arith, ◌∙◌,
}
use resourcery.World.{Program, World, Outcome, completed, failed, panicked, aborted}
use resourcery.Domain.{try_acquire}
use resourcery.Reference.{strong, set_strong, drop_ref, clone_ref, upgrade, Observed, wait}
use resourcery.Reference.Leases.{drop_ref-set_strong}
use resourcery.Moves.{Moves}
use resourcery.Moves.Forward.{Moves-Forward}

-- An `Arc<Entry>` is named by the generation of the entry, and so is a `Weak` to it; the domain is
-- the one of the world. A receiver is named by the generation whose outcome it receives.
pub record ResourceRef : Type 0 where
  pub entry : ℕ

pub record WeakResourceRef : Type 0 where
  pub entry : ℕ

pub record ResourceCompletion : Type 0 where
  pub receiver : ℕ

unfoldable pub downgrade : ResourceRef → WeakResourceRef
downgrade r = record { entry = r.entry }

unfoldable pub completion : ResourceRef → ResourceCompletion
completion r = record { receiver = r.entry }

-- The clones of handles that are no leases.
unfoldable pub clone_weak : WeakResourceRef → WeakResourceRef
clone_weak r = record { entry = r.entry }

unfoldable pub clone_completion : ResourceCompletion → ResourceCompletion
clone_completion c = record { receiver = c.receiver }

-- `ResourceOutcome::clone`; the clone of an `Arc` is the same error or message.
unfoldable pub clone_outcome : {E : Type 0} → Outcome E → Outcome E
clone_outcome completed = completed
clone_outcome (failed error) = failed error
clone_outcome (panicked message) = panicked message
clone_outcome aborted = aborted

-- `ResourceRef::finished`, which borrows the reference: `rounds` is what the wait on the channel of
-- a completion meets.
unfoldable pub finished :
    {E : Type 0} → ResourceRef → (ResourceCompletion → List (Observed E)) → Option (Outcome E)
unfolding completion wait
finished r rounds = wait (rounds (completion r))

pub clone_outcome_lem : {E : Type 0} (outcome : Outcome E) → clone_outcome outcome ≡ outcome
unfolding clone_outcome
clone_outcome_lem completed = refl
clone_outcome_lem (failed error) = refl
clone_outcome_lem (panicked message) = refl
clone_outcome_lem aborted = refl

module _ {P : Program} where
  -- `Deref`.
  unfoldable pub deref : World P → ResourceRef → Option P.Interface
  deref w r = (w.generations r.entry).interface

  -- `WeakResourceRef::upgrade`: the reference that it returns, if any.
  unfoldable pub upgrade_weak : World P → WeakResourceRef → World P × Option ResourceRef
  unfolding upgrade
  upgrade_weak w r =
      let (w', upgraded) = upgrade w r.entry in
      (w', if upgraded then some (record { entry = r.entry }) else none)

  -- A reference gives access to the one interface of its generation, whatever happens: it is never
  -- moved to a replacement.
  pub deref-Moves :
      {w u : World P} (r : ResourceRef)
      → Moves w u
      → r.entry < w.next_generation
      → deref u r ≡ deref w r
  unfolding deref
  deref-Moves r m l = let o = (Moves-Forward m).generation r.entry l in o.interface

  try_acquire-set_strong :
      (w : World P) (g n : ℕ) → try_acquire (set_strong w g n) g ≡ try_acquire w g
  unfolding try_acquire
  try_acquire-set_strong w g n = ground (arith, ==_refl g)

  -- What an upgrade of a leased generation comes to, when `u` has the lease and `v` has lost it.
  abbrev pub settled : World P → World P → Bool → Bool → World P × Bool
  settled u v alive tried = if alive then (if tried then (u, true) else (v, false)) else (v, false)

  settled_eq :
      (u v : World P) (alive tried : Bool)
      → settled u v alive tried ≡ (if alive && tried then (u, true) else (v, false))
  settled_eq u v true tried = refl
  settled_eq u v false tried = refl

  pub upgrade-settled :
      (w : World P) (g n : ℕ)
      → strong w g ≡ suc n
      → let u = set_strong w g (suc (suc n)) in
        upgrade w g ≡ settled u (drop_ref u g) w.domain_alive (try_acquire u g)
  unfolding upgrade
  upgrade-settled w g n e = rw (e, upgrade)

  -- The upgrade of a weak reference to a generation that has leases.
  upgrade-leased :
      (w : World P) (g n : ℕ)
      → strong w g ≡ suc n
      → upgrade w g
        ≡ (if w.domain_alive && try_acquire w g then (clone_ref w g, true) else (w, false))
  unfolding clone_ref
  upgrade-leased w g n e =
      let u = set_strong w g (suc (suc n)) in
      let alive = w.domain_alive in
      let added : u ≡ clone_ref w g = ap (λ (k : ℕ). set_strong w g k) (omega arith) in
      upgrade-settled w g n e
      ∙ ap (λ (t : Bool). settled u (drop_ref u g) alive t)
          (try_acquire-set_strong w g (suc (suc n)))
      ∙ ap (λ (v : World P). settled u v alive (try_acquire w g)) (drop_ref-set_strong w g n e)
      ∙ ap (λ (x : World P). settled x w alive (try_acquire w g)) added
      ∙ settled_eq (clone_ref w g) w alive (try_acquire w g)

  -- A reference that has a lease, downgraded and upgraded again, is given out exactly if the domain
  -- is there and the generation can be acquired: it is a reference to the same generation, and
  -- nothing has changed but that there is a lease more. Otherwise nothing has changed.
  pub upgrade_weak-downgrade :
      (w : World P) (r : ResourceRef) (n : ℕ)
      → strong w r.entry ≡ suc n
      → upgrade_weak w (downgrade r) ≡ (
          if w.domain_alive && try_acquire w r.entry
          then (clone_ref w r.entry, some r)
          else (w, none))
  unfolding upgrade_weak upgrade downgrade clone_ref
  upgrade_weak-downgrade w r n e = ground (arith, upgrade-leased w r.entry n e)
