-- ===== src/Moves/Preservation/Cells.antt =====
-- The atomic actions on leases, slots, maps and the calls of other packages.
use resourcery.Base.{ℕ, suc, ◌<◌, ◌≡◌, refl, inl, inr, false, ◌∷◌, arith, some}
use resourcery.World.{Program, World, Call}
use resourcery.Domain.{is_accepting}
use resourcery.Reference.{strong, set_strong}
use resourcery.Registry.Cases.{
  opened, detached, slot-opened, slot-detached, claim_vacant_cases, remove_if_same_cases,
}
use resourcery.Registry.{slot, claim_vacant, remove_if_same, insert_live, remove_live}
use resourcery.Context.{set_generation}
use resourcery.Moves.Invariant.{Inv}
use resourcery.Moves.{is_cancel}

module _ {P : Program} (w : World P) (v : Inv w) where
  open v use {
    quiet, signalled, token, at_least, at_most, fresh_phase, fresh_strong, known_tasks, known_slots,
  }

  pub set_strong-Inv : (g n m : ℕ) → strong w g ≡ suc n → Inv (set_strong w g m)
  unfolding slot is_accepting
  set_strong-Inv g n m e = record {
    quiet = quiet;
    signalled = signalled;
    token = λ j. ground (arith, token j);
    at_least = λ j. ground (arith, at_least j);
    at_most = λ j. ground (arith, at_most j);
    fresh_phase = λ j l. ground (arith, fresh_phase j);
    fresh_strong = λ j l. ground (arith, fresh_strong j);
    known_tasks = known_tasks;
    known_slots = known_slots;
  }

  opened-Inv : (t : ℕ) (key : P.Key) → Inv (opened w t key)
  unfolding is_accepting
  opened-Inv t key = record {
    quiet = quiet;
    signalled = signalled;
    token = token;
    at_least = at_least;
    at_most = at_most;
    fresh_phase = fresh_phase;
    fresh_strong = fresh_strong;
    known_tasks = known_tasks;
    known_slots = λ u k s. ground (arith, known_slots u k s, slot-opened w t key u k);
  }

  detached-Inv : (t : ℕ) (key : P.Key) → Inv (detached w t key)
  unfolding is_accepting
  detached-Inv t key = record {
    quiet = quiet;
    signalled = signalled;
    token = token;
    at_least = at_least;
    at_most = at_most;
    fresh_phase = fresh_phase;
    fresh_strong = fresh_strong;
    known_tasks = known_tasks;
    known_slots = λ u k s. ground (arith, known_slots u k s, slot-detached w t key u k);
  }

  pub claim_vacant-Inv : (t : ℕ) (key : P.Key) → Inv (claim_vacant w t key).0
  claim_vacant-Inv t key = elim (claim_vacant_cases w t key) [
    | inl (a, e) ↦ rw e v
    | inr (a, e) ↦ rw e (opened-Inv t key)
  ]

  pub remove_if_same-Inv : (t : ℕ) (key : P.Key) (s n : ℕ) → Inv (remove_if_same w t key s n)
  remove_if_same-Inv t key s n = elim (remove_if_same_cases w t key s n) [
    | inl e ↦ rw e v
    | inr (a, b, e) ↦ rw e (detached-Inv t key)
  ]

  -- The invariant reads of the slots only the addresses, and nothing of the lists of live entries.
  pub same-Inv :
      (u : World P)
      → (u.phase ≡ w.phase)
        × (u.tasks ≡ w.tasks)
        × (u.generations ≡ w.generations)
        × (u.next_generation ≡ w.next_generation)
        × (u.calls ≡ w.calls)
      → ((t : ℕ) (key : P.Key) (s : ℕ) → slot u t key ≡ some s → s < u.next_slot)
      → Inv u
  unfolding is_accepting
  same-Inv u (p, t, g, n, c) slots = record {
    quiet = rw (p, t) quiet;
    signalled = rw (p, c) signalled;
    token = rw g token;
    at_least = rw (g, c) at_least;
    at_most = rw (g, c) at_most;
    fresh_phase = rw (g, n) fresh_phase;
    fresh_strong = rw (g, n) fresh_strong;
    known_tasks = rw (t, n) known_tasks;
    known_slots = slots;
  }

  pub set_task_id-Inv :
      (g id : ℕ) → Inv (set_generation w g (record (w.generations g) { task_id = some id }))
  unfolding slot is_accepting
  set_task_id-Inv g id = record {
    quiet = quiet;
    signalled = signalled;
    token = λ j. ground (arith, token j);
    at_least = λ j. ground (arith, at_least j);
    at_most = λ j. ground (arith, at_most j);
    fresh_phase = λ j l. ground (arith, fresh_phase j);
    fresh_strong = λ j l. ground (arith, fresh_strong j);
    known_tasks = known_tasks;
    known_slots = known_slots;
  }

  pub call-Inv : (c : Call P.Error) → is_cancel c ≡ false → Inv (record w { calls = c ∷ w.calls })
  unfolding slot is_accepting
  call-Inv c h = record {
    quiet = quiet;
    signalled = ground arith;
    token = token;
    at_least = λ j. ground (arith, at_least j);
    at_most = λ j. ground (arith, at_most j);
    fresh_phase = fresh_phase;
    fresh_strong = fresh_strong;
    known_tasks = known_tasks;
    known_slots = known_slots;
  }

  pub live-Inv : (t id g : ℕ) → Inv (insert_live w t id g)
  unfolding insert_live slot
  live-Inv t id g =
      same-Inv (insert_live w t id g) (refl, refl, refl, refl, refl)
        (λ u k s. ground (arith, known_slots u k s))

  pub unlive-Inv : (t id : ℕ) → Inv (remove_live w t id)
  unfolding remove_live slot
  unlive-Inv t id =
      same-Inv (remove_live w t id) (refl, refl, refl, refl, refl)
        (λ u k s. ground (arith, known_slots u k s))
