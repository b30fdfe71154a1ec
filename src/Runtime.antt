-- ===== src/Runtime.antt =====
-- src/runtime.rs: the host of a domain, and the run of a root resource.
pub mod Outcomes
pub mod Texts
use resourcery.Base.{
  ℕ, ◌≡◌, refl, ap, Bool, true, false, List, [], ◌∷◌, Option, none, some, arith, if◌then◌else◌,
}
use Prim.Native.String.{String}
use resourcery.World.{Program, World, Outcome, completed, failed, panicked, aborted, new_world}
use resourcery.Domain.{Meanwhile, is_accepting, shutdown_domain}
use resourcery.Domain
use resourcery.Reference.{Observed, wait, drop_ref}
use resourcery.Context.{AcquireError, Result, ok, err, Built, Resource, Pauses, spawn}

-- src/error.rs, `RunError`.
pub data RunError (E : Type 0) : Type 0 where
  acquire : AcquireError → RunError E
  resource : E → RunError E
  panicked_with : (message : String) → RunError E
  was_aborted : RunError E

-- `Result<(), RunError<E>>`.
pub data RunResult (E : Type 0) : Type 0 where
  done : RunResult E
  failed_with : RunError E → RunResult E

unfoldable pub run_result : {E : Type 0} → Outcome E → RunResult E
run_result completed = done
run_result (failed e) = failed_with (resource e)
run_result (panicked message) = failed_with (panicked_with message)
run_result aborted = failed_with was_aborted

-- What `run` does with the result of `spawn`: `none` while the root's outcome is not there. The
-- root's strong reference ends with the wait.
module _ {P : Program} where
  open P use {Error, Interface}

  unfoldable pub run_root :
      World P × Result ℕ → Meanwhile P → List (Observed Error) → Option (World P × RunResult Error)
  unfolding wait run_result drop_ref
  run_root (w, err e) others rounds = some (w, failed_with (acquire e))
  run_root (w, ok g) others rounds = elim (wait rounds) [
    | none ↦ none
    | some outcome ↦ some (drop_ref (others w) g, run_result outcome)
  ]

  -- `ResourceRuntime::run`: `others` is what the rest of the program does while the root is built,
  -- `meanwhile` what it does until the root is over, and `rounds` what the wait meets.
  unfoldable pub run :
      (R : Resource P)
      → World P
      → R.Input
      → Pauses P
      → Built Interface
      → Meanwhile P
      → List (Observed Error)
      → Option (World P × RunResult Error)
  unfolding spawn run_root
  run R w input others built meanwhile rounds =
      run_root (spawn R w input others built) meanwhile rounds

  -- `ResourceRuntime::new`, and `Default`; a runtime is its domain.
  unfoldable pub new : World P
  unfolding new_world
  new = new_world

  unfoldable pub cancel : World P → World P
  unfolding Domain.cancel
  cancel w = Domain.cancel w

  unfoldable pub shutdown : World P → List (Meanwhile P) → Option (World P)
  unfolding shutdown_domain
  shutdown w waits = shutdown_domain w waits

  unfoldable pub terminate : World P → Meanwhile P → List (Meanwhile P) → Option (World P)
  unfolding Domain.terminate
  terminate w others waits = Domain.terminate w others waits
