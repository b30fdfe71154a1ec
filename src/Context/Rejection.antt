-- ===== src/Context/Rejection.antt =====
-- src/context.rs and src/reference.rs: a domain that has begun to shut down gives nothing out.
use resourcery.Base.{ℕ, ◌≡◌, ◌≢◌, refl, ap, false, List, [], ◌∷◌, none, arith, Bool-cases, inl, inr}
use resourcery.Placement.{canonical}
use resourcery.World.{Program, World}
use resourcery.Domain.{is_accepting, Meanwhile}
use resourcery.Reference.{acquire_entry, upgrade}
use resourcery.Registry.{live_snapshot}
use resourcery.Context.Create.{Result, err, Built, create, create_and_start, shutting_down}
use resourcery.Context.Acquire.{Pauses, ready, Resource, spawn, try_get_or_spawn, get_or_spawn}
use resourcery.Context.Discover.{get, status, all, acquire_each, leased}

module _ {P : Program} where
  acquire_entry-rejects :
      (w : World P) (g : ℕ)
      → is_accepting w ≡ false
      → ((acquire_entry w g).1 ≡ false) × (is_accepting (acquire_entry w g).0 ≡ false)
  unfolding acquire_entry is_accepting
  acquire_entry-rejects w g a = (ground arith, ground arith)

  upgrade-rejects : (w : World P) (g : ℕ) → is_accepting w ≡ false → (upgrade w g).1 ≡ false
  unfolding upgrade is_accepting
  upgrade-rejects w g a = ground arith

  acquire_each-rejects :
      (w : World P) (gs : List ℕ) → is_accepting w ≡ false → (acquire_each w gs).1 ≡ []
  unfolding acquire_each
  acquire_each-rejects w [] a = refl
  acquire_each-rejects w (g ∷ gs) a =
      let (no_entry, still) = acquire_entry-rejects w g a in
      rw no_entry (acquire_each-rejects (acquire_entry w g).0 gs still)

  get-rejects :
      (w : World P) (t : ℕ) (key : P.Key) → is_accepting w ≡ false → (get w t key).1 ≡ none
  unfolding get is_accepting
  get-rejects w t key a = ground arith

  status-rejects :
      (w : World P) (t : ℕ) (key : P.Key) (g : ℕ)
      → is_accepting w ≡ false
      → (status w t key).1 ≢ leased g
  unfolding status is_accepting
  status-rejects w t key g a = ground arith

  create_and_start-rejects :
      (w : World P) (t : ℕ) (others : Meanwhile P) (built : Built P.Interface)
      → is_accepting w ≡ false
      → create_and_start w t none others built ≡ (w, err shutting_down)
  unfolding create_and_start create
  create_and_start-rejects w t others built a =
      let q : create w t none others built ≡ (w, err shutting_down) = rw (a, create) in
      rw (q, create_and_start) (ap (λ (r : World P × Result ℕ). (r.0, err shutting_down)) q)

module _ {P : Program} (R : Resource P) where
  -- Once the domain has begun to shut down, nobody acquires anything in it. Every operation that
  -- could create a generation returns `ShuttingDown` and leaves the state exactly as it is; and
  -- `get`, `status`, `all` and the upgrade of a weak reference give out no lease.
  pub shutdown-rejects :
      (w : World P) (input : R.Input) (waits : List (Meanwhile P)) (others : Pauses P)
      (built : Built P.Interface)
      → is_accepting w ≡ false
      → (spawn R w input others built ≡ (w, err shutting_down))
        × (try_get_or_spawn R w input others built ≡ (w, err shutting_down))
        × (get_or_spawn R w input waits others built ≡ ready w (err shutting_down))
        × ((key : P.Key) → (get w R.type_id key).1 ≡ none)
        × ((key : P.Key) (g : ℕ) → (status w R.type_id key).1 ≢ leased g)
        × ((all w R.type_id).1 ≡ [])
        × ((g : ℕ) → (upgrade w g).1 ≡ false)
  unfolding spawn try_get_or_spawn get_or_spawn all
  shutdown-rejects w input waits others built a = (
    elim (Bool-cases (canonical R.placement)) [
      | inl k ↦ rw (k, a)
      | inr k ↦ rw k (create_and_start-rejects w R.type_id others.building built a)
    ],
    rw a,
    rw a,
    λ key. get-rejects w R.type_id key a,
    λ key g. status-rejects w R.type_id key g a,
    acquire_each-rejects w (live_snapshot w R.type_id) a,
    λ g. upgrade-rejects w g a,
  )
