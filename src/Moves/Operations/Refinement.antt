-- ===== src/Moves/Operations/Refinement.antt =====
-- src/context.rs, src/domain.rs and src/reference.rs: all operations that change the shared state.
use resourcery.Base.{ℕ, ◌<◌, List, All}
use resourcery.World.{Program, World}
use resourcery.Domain.{Meanwhile, cancel, shutdown_domain, terminate}
use resourcery.Reference.{drop_ref, upgrade}
use resourcery.Context.{
  Pauses, Resource, Built, Joined, spawn, try_get_or_spawn, get_or_spawn, get, status, all,
  supervise,
}
use resourcery.Moves.{Moves}
use resourcery.Moves.Invariant.{Inv}
use resourcery.Moves.Operations.Leases.{drop_ref-Moves, upgrade-Moves}
use resourcery.Moves.Operations.Domains.{
  Acts, Reaches, cancel-Moves, shutdown-Moves, terminate-Moves,
}
use resourcery.Moves.Operations.Contexts.{ActsIn, supervise-Moves}
use resourcery.Moves.Operations.Acquisitions.{
  Reached, spawn-Moves, try_get_or_spawn-Moves, get_or_spawn-Reached, get-status-Moves, all-Moves,
}

-- Every operation, begun where the bookkeeping is right, does nothing to the shared state but by the
-- atomic actions, if the rest of the program does so too while the operation waits or builds: on
-- every branch of it, for every placement, and however the task of a supervisor ended, the state
-- after it is reached by a chain of these. This holds of `spawn`, `try_get_or_spawn`, `get_or_spawn`
-- (which never runs into its `unreachable!`, however often it waits), `get`, `status`, `all`, the
-- upgrade and the drop of a reference, the supervisor of an allocated generation, and `cancel`,
-- `shutdown` and `terminate` of the domain, if these return.
pub operations-Act :
    {P : Program} (R : Resource P) {w : World P}
    → Inv w
    → (input : R.Input) (others : Pauses P) (between : Meanwhile P) (waits : List (Meanwhile P))
      (built : Built P.Interface) (g t : ℕ) (key : P.Key) (joined : Joined P.Error)
    → ActsIn others
    → Acts between
    → All Acts waits
    → g < w.next_generation
    → Moves w (spawn R w input others built).0
      × Moves w (try_get_or_spawn R w input others built).0
      × Reached w (get_or_spawn R w input waits others built)
      × Moves w (get w t key).0
      × Moves w (status w t key).0
      × Moves w (all w t).0
      × Moves w (upgrade w g).0
      × Moves w (drop_ref w g)
      × Moves w (supervise w g joined)
      × Moves w (cancel w)
      × Reaches w (shutdown_domain w waits)
      × Reaches w (terminate w between waits)
operations-Act R v input others between waits built g t key joined o b h l = (
  spawn-Moves R v input others built o,
  try_get_or_spawn-Moves R v input others built o,
  get_or_spawn-Reached R v input waits others built h o,
  (get-status-Moves v t key).0,
  (get-status-Moves v t key).1,
  all-Moves v t,
  upgrade-Moves v g,
  drop_ref-Moves v g,
  supervise-Moves g joined l,
  cancel-Moves v,
  shutdown-Moves v waits h,
  terminate-Moves v between waits b h,
)
