-- ===== src/Runtime/Outcomes.antt =====
-- src/runtime.rs: what `run` reports of its root.
use resourcery.Base.{ℕ, ◌≡◌, refl, List, [], ◌∷◌, ◌++◌, Option, none, some, All, ◌⊎◌, inl, inr}
use resourcery.World.{Program, World, Outcome, completed, failed, panicked, aborted}
use resourcery.Domain.{Meanwhile}
use resourcery.Reference.{Observed, wait, drop_ref}
use resourcery.Reference.Waiting.{Sees, wait-Sees}
use resourcery.Context.{Result, ok, err, Built, Resource, Pauses, spawn}
use resourcery.Runtime.{
  RunResult, done, failed_with, acquire, resource, panicked_with, was_aborted, run_result, run_root,
  run,
}

-- The outcome of the root that a result of `run` tells; none if there was no root.
abbrev pub told : {E : Type 0} → RunResult E → Option (Outcome E)
told done = some completed
told (failed_with (acquire e)) = none
told (failed_with (resource e)) = some (failed e)
told (failed_with (panicked_with message)) = some (panicked message)
told (failed_with was_aborted) = some aborted

told-run_result : {E : Type 0} (outcome : Outcome E) → told (run_result outcome) ≡ some outcome
unfolding run_result
told-run_result completed = refl
told-run_result (failed e) = refl
told-run_result (panicked message) = refl
told-run_result aborted = refl

module _ {P : Program} where
  -- `run` has returned, in this world, and tells this outcome.
  abbrev pub Tells : Option (World P × RunResult P.Error) → World P → Outcome P.Error → Type 0
  Tells none u outcome = ⊥
  Tells (some (w, r)) u outcome = (w ≡ u) × (told r ≡ some outcome)

  -- What `run` makes of the result of `spawn`, over these rounds of the wait and with a last one.
  abbrev pub Reports :
      World P × Result ℕ
      → Meanwhile P
      → Outcome P.Error
      → Option (World P × RunResult P.Error)
      → Option (World P × RunResult P.Error)
      → Type 0
  Reports (w, err e) meanwhile outcome early late =
      (early ≡ some (w, failed_with (acquire e))) × (late ≡ early)
  Reports (w, ok g) meanwhile outcome early late =
      ((early ≡ none) ⊎ Tells early (drop_ref (meanwhile w) g) outcome)
      × Tells late (drop_ref (meanwhile w) g) outcome

  run_root-seen :
      (w : World P) (g : ℕ) (meanwhile : Meanwhile P) (outcome : Outcome P.Error)
      (rounds : List (Observed P.Error))
      → wait rounds ≡ some outcome
      → Tells (run_root (w, ok g) meanwhile rounds) (drop_ref (meanwhile w) g) outcome
  unfolding run_root
  run_root-seen w g meanwhile outcome rounds e = rw (e, run_root) (refl, told-run_result outcome)

  run_root-unseen :
      (w : World P) (g : ℕ) (meanwhile : Meanwhile P) (rounds : List (Observed P.Error))
      → wait rounds ≡ none
      → run_root (w, ok g) meanwhile rounds ≡ none
  unfolding run_root
  run_root-unseen w g meanwhile rounds e = rw (e, run_root) refl

  run_root-Reports :
      (r : World P × Result ℕ) (meanwhile : Meanwhile P) (outcome : Outcome P.Error)
      (rounds : List (Observed P.Error)) (last : Observed P.Error)
      → All (Sees outcome) rounds
      → last.value ≡ some outcome
      → Reports r meanwhile outcome
          (run_root r meanwhile rounds)
          (run_root r meanwhile (rounds ++ last ∷ []))
  unfolding run_root
  run_root-Reports (w, err e) meanwhile outcome rounds last h q = (refl, refl)
  run_root-Reports (w, ok g) meanwhile outcome rounds last h q =
      let (early, late) = wait-Sees outcome rounds last h q in
      (
        elim early [
          | inl e ↦ inl (run_root-unseen w g meanwhile rounds e)
          | inr e ↦ inr (run_root-seen w g meanwhile outcome rounds e)
        ],
        run_root-seen w g meanwhile outcome (rounds ++ last ∷ []) late,
      )

module _ {P : Program} (R : Resource P) where
  -- If the root is not established, `run` returns its error at once, and waits for nothing.
  -- Otherwise, over rounds of the wait in which the observer sees nothing or the root's one outcome,
  -- whatever the rest of the program does meanwhile, `run` waits still or has given up the root's
  -- lease and returned a result from which that outcome can be told; and it has returned so after a
  -- round that sees the outcome.
  pub run-outcome :
      (w : World P) (input : R.Input) (others : Pauses P) (meanwhile : Meanwhile P)
      (built : Built P.Interface) (outcome : Outcome P.Error) (rounds : List (Observed P.Error))
      (last : Observed P.Error)
      → All (Sees outcome) rounds
      → last.value ≡ some outcome
      → Reports
          (spawn R w input others built)
          meanwhile
          outcome
          (run R w input others built meanwhile rounds)
          (run R w input others built meanwhile (rounds ++ last ∷ []))
  unfolding run
  run-outcome w input others meanwhile built outcome rounds last h q =
      run_root-Reports (spawn R w input others built) meanwhile outcome rounds last h q
