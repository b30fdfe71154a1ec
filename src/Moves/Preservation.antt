-- ===== src/Moves/Preservation.antt =====
-- Every atomic action keeps the bookkeeping of `Invariant`.
mod Phases
mod Cells
use resourcery.Base.{
  ℕ, suc, ◌<◌, ◌≡◌, refl, inl, inr, true, false, List, [], ◌∷◌, arith, All, Option, some,
}
use resourcery.Lifecycle
use resourcery.Lifecycle.{
  Control, Token, shutdown, child, Phase, starting, active, cancelling, finished,
}
use resourcery.World.{Program, World, Cleanup, Call, new_world}
use resourcery.Domain.{
  control, is_accepting, register_locked, task_finished, cancel_locked, cancel_control, remove_task,
  insert_task,
}
use resourcery.Domain.Frame.{
  tasks-task_finished, next-task_finished, tasks-cancel_locked, next-cancel_locked,
}
use resourcery.Domain.Register.{registered, register_locked_cases}
use resourcery.Reference.{strong, set_strong}
use resourcery.Registry.Cases.{
  opened, detached, slot-opened, slot-detached, claim_vacant_cases, remove_if_same_cases,
}
use resourcery.Registry.{slot, claim_vacant, remove_if_same, insert_live, remove_live}
use resourcery.Context.{allocate, set_generation, finish_control}
use resourcery.Moves.Invariant.{Inv, Inv-new}
use resourcery.Moves.{
  Move, registers, closes, shuts, cancels, finishes, leases, releases, reclaims, opens, installs,
  removes, lists, unlists, allocates, supervises, calls_out, Moves, here, next, is_cancel,
}
use resourcery.Moves.Preservation.Phases.{
  cancel_control-Inv, finish_control-Inv, register_locked-Inv, task_finished-Inv, cancel_locked-Inv,
  allocate-Inv,
}
use resourcery.Moves.Preservation.Cells.{
  set_strong-Inv, claim_vacant-Inv, remove_if_same-Inv, same-Inv, set_task_id-Inv, call-Inv,
  live-Inv, unlive-Inv,
}

module _ {P : Program} where
  -- Every atomic action keeps the invariant.
  pub Move-Inv : {w u : World P} → Move w u → Inv w → Inv u
  unfolding slot is_accepting
  Move-Inv {w} (registers g h e) v = rw e (register_locked-Inv w v g h)
  Move-Inv {w} (closes id e) v = rw e (task_finished-Inv w v id)
  Move-Inv {w} (shuts e) v = rw e (cancel_locked-Inv w v)
  Move-Inv {w} (cancels g h e) v = rw e (cancel_control-Inv w v g h)
  Move-Inv {w} (finishes g h e) v = rw e (finish_control-Inv w v g h)
  Move-Inv {w} (leases g n p e) v = rw e (set_strong-Inv w v g n (suc (suc n)) p)
  Move-Inv {w} (releases g n p e) v = rw e (set_strong-Inv w v g n n p)
  Move-Inv {w} (reclaims s n g a p d e) v =
      rw e (same-Inv w v _ (refl, refl, refl, refl, refl) v.known_slots)
  Move-Inv {w} (opens t key p e) v = rw e (claim_vacant-Inv w v t key)
  Move-Inv {w} (installs c g e) v =
      rw e (same-Inv w v _ (refl, refl, refl, refl, refl) v.known_slots)
  Move-Inv {w} (removes t key s n e) v = rw e (remove_if_same-Inv w v t key s n)
  Move-Inv {w} (lists t id g e) v = rw e (live-Inv w v t id g)
  Move-Inv {w} (unlists t id e) v = rw e (unlive-Inv w v t id)
  Move-Inv {w} (allocates t f i e) v = rw e (allocate-Inv w v t f i)
  Move-Inv {w} (supervises g id h e) v = rw e (set_task_id-Inv w v g id)
  Move-Inv {w} (calls_out c h e) v = rw e (call-Inv w v c h)

  pub Moves-Inv : {w u : World P} → Moves w u → Inv w → Inv u
  Moves-Inv here v = v
  Moves-Inv (next p m) v = Move-Inv m (Moves-Inv p v)

  -- In every state that a run from a new domain reaches, whatever the interleaving: a domain that
  -- is terminated has no task; the domain's token was cancelled exactly once if it does not accept,
  -- and never while it does; and the token of each generation was cancelled at most once, exactly
  -- once if its control is in the phase `Cancelling`, and never while that is `Starting` or
  -- `Active`.
  pub Moves-new-Inv : {u : World P} → Moves new_world u → Inv u
  Moves-new-Inv p = Moves-Inv p Inv-new
