-- ===== src/Tests/Witnesses.antt =====
-- The theorems with hypotheses at concrete inputs that meet them.
use resourcery.Base.{
  ◌&&◌, if◌then◌else◌, ℕ, ◌≡◌, refl, true, false, none, some, List, [], ◌∷◌, arith, inl, All,
}
use resourcery.Lifecycle
use resourcery.Lifecycle.{Token, Phase, starting, active, cancelling, finished, shutdown, child}
use resourcery.Lifecycle.History
use resourcery.Lifecycle.CancelLoop.{rank, Attempt, cancel_loop, Settles, cancel_loop-Settles}
use resourcery.Lifecycle.History.{
  Op, activates, cancels, finishes, run-new-calls, run-new-rank, furthest,
}
use resourcery.World.{World, Outcome, terminated}
use resourcery.Domain
use resourcery.Domain.{try_acquire}
use resourcery.Domain.Shutdown.{cancel-Stopping, cancel-cancel}
use resourcery.Context.Snapshot.{acquirable, all-In}
use resourcery.Base.{In}
use resourcery.Domain.Quiescence.{Ends, Returns, finishing, shutdown_domain-Ends}
use resourcery.Domain.Termination.{Aborted, terminate-Ends}
use resourcery.Reference
use resourcery.Reference.{Observed, strong, drop_ref, clone_ref}
use resourcery.Reference.Handles.{ResourceRef, downgrade, upgrade_weak, upgrade_weak-downgrade}
use resourcery.Reference.Waiting.{wait-Sees}
use resourcery.Registry.{claim, slot, wait, remove_if_same}
use resourcery.Registry.Ownership.{claim-claim, remove_if_same-claim, remove_if_same-owner}
use resourcery.Context.{
  Pauses, Resource, Built, spec, panics, ok, err, finish_canonical_creation, supervise, returned_ok,
  outcome_of, spawn, get_or_spawn, get, status, construction_panicked, shutting_down, leased, ready,
  try_acquire_canonical, acquire_canonical,
}
use resourcery.Context
use resourcery.Context.Lookups.{Live, Live-lookups, Live-reuse}
use resourcery.Context.Rejection.{shutdown-rejects}
use resourcery.Context.Settled.{Supervised, supervise-settles}
use resourcery.Runtime
use resourcery.Runtime.{run, done}
use resourcery.Runtime.Outcomes.{Reports, run-outcome}
use resourcery.Runtime.Texts.{run_text-injective}
use resourcery.Tests.Samples.{
  sample, named, idle, calm, fresh, claimed, seventh, live, stopping, runs,
}

-- A weak exchange fails without cause, then another thread activates the control, then it works.
abbrev attempts : List Attempt
attempts =
    record { found = starting; spurious = true }
    ∷ record { found = active; spurious = false }
    ∷ record { found = active; spurious = false }
    ∷ []

cancel_loop-Settles_example : Settles (cancel_loop starting attempts)
cancel_loop-Settles_example = cancel_loop-Settles starting attempts (omega arith) (omega arith)

run-new-calls_example :
    (Lifecycle.History.run
      (Lifecycle.new (child 3))
      (activates ∷ cancels ∷ finishes ∷ cancels ∷ [])).1
    ≡ child 3 ∷ []
run-new-calls_example = run-new-calls (child 3) (activates ∷ cancels ∷ finishes ∷ cancels ∷ [])

run-new-rank_example :
    rank (Lifecycle.History.run (Lifecycle.new (child 3)) (cancels ∷ activates ∷ [])).0.phase ≡ 2
run-new-rank_example = run-new-rank (child 3) (cancels ∷ activates ∷ [])

claim-claim_example : claim claimed 0 7 true ≡ (claimed, wait 0)
unfolding runs
claim-claim_example = claim-claim fresh 0 7 false true 0 1 refl

-- The generation 0 has finished, and key 7 is claimed anew before its cleanup runs.
abbrev over : World sample
over = Context.finish_control live 0

remove_if_same-claim_example :
    remove_if_same (claim over 0 7 false).0 0 7 0 1 ≡ (claim over 0 7 false).0
unfolding runs Context.finish_control
remove_if_same-claim_example =
    remove_if_same-claim over 0 7 false 0 2 1 0 (omega arith) refl refl refl

remove_if_same-owner_example : slot (remove_if_same claimed 0 7 0 1) 0 7 ≡ none
unfolding runs
remove_if_same-owner_example = (remove_if_same-owner claimed 0 7 0 1 (refl, refl)).0

-- The domain shuts down once the task is registered.
abbrev closing : Pauses sample
closing = record { building = idle; registered = Domain.cancel }

closing-withdrawn :
    (finish_canonical_creation claimed seventh closing (spec 5)).1 ≡ err shutting_down
unfolding runs
closing-withdrawn = refl

live-Live : Live live 0 7 0 1 0 0
unfolding runs
live-Live = record { slot_of = refl; state = refl; accepting = refl; phase = refl; leases = refl }

Live-lookups_example : get live 0 7 ≡ (Reference.set_strong live 0 2, some 0)
Live-lookups_example = (Live-lookups live 0 7 live-Live).0

Live-reuse_example :
    acquire_canonical live 0 7 [] calm panics ≡ ready (Reference.set_strong live 0 2) (ok 0)
Live-reuse_example = (Live-reuse live 0 7 live-Live [] calm panics).0

shutdown-rejects_example : spawn named stopping 8 calm (spec 6) ≡ (stopping, err shutting_down)
unfolding runs
shutdown-rejects_example = (shutdown-rejects named stopping 8 [] calm (spec 6) refl).0

live-Supervised : Supervised live 0 returned_ok seventh 0
unfolding runs
live-Supervised = record {
  on_finish = refl;
  task_id = refl;
  type_id = refl;
  slot_of = refl;
  state = refl;
}

supervise-settles_example : slot (supervise live 0 returned_ok) 0 7 ≡ none
supervise-settles_example = (supervise-settles live 0 returned_ok seventh 0 live-Supervised).2

cancel-Stopping_example : Domain.is_accepting (Domain.cancel live) ≡ false
unfolding runs
cancel-Stopping_example = (cancel-Stopping live (λ e. cc)).0

shutdown_domain-Ends_example : Ends (Domain.shutdown_domain live (finishing (3 ∷ 0 ∷ [])))
unfolding runs
shutdown_domain-Ends_example = shutdown_domain-Ends live (3 ∷ 0 ∷ []) (omega arith)

terminate-Ends_example :
    Returns
      (λ u. (u.phase ≡ terminated) × All (Aborted u) (Domain.controls live))
      (Domain.terminate live idle (finishing (0 ∷ [])))
unfolding runs
terminate-Ends_example = terminate-Ends live idle (0 ∷ []) (omega arith)

cancel-cancel_example : Domain.cancel stopping ≡ stopping
cancel-cancel_example = cancel-cancel live

all-In_example : In 0 (Context.all live 0).1
unfolding runs acquirable
all-In_example = (all-In live 0 0).1 ((0, refl), refl)

abbrev root : ResourceRef
root = record { entry = 0 }

upgrade_weak-downgrade_example : upgrade_weak live (downgrade root) ≡ (
    if live.domain_alive && try_acquire live 0 then (clone_ref live 0, some root) else (live, none))
unfolding runs
upgrade_weak-downgrade_example = upgrade_weak-downgrade live root 0 refl

abbrev nothing_yet : Observed ℕ
nothing_yet = record { value = none; closed = false }

abbrev over_now : Observed ℕ
over_now = record { value = some (Outcome.failed 4); closed = true }

wait-Sees_example : Reference.wait (nothing_yet ∷ over_now ∷ []) ≡ some (Outcome.failed 4)
wait-Sees_example =
    (wait-Sees (Outcome.failed 4) (nothing_yet ∷ []) over_now (inl (refl, refl), tt) refl).1

run-outcome_example :
    Reports
      (spawn named fresh 7 calm (spec 5))
      idle
      (Outcome.failed 4)
      (run named fresh 7 calm (spec 5) idle (nothing_yet ∷ []))
      (run named fresh 7 calm (spec 5) idle (nothing_yet ∷ over_now ∷ []))
run-outcome_example =
    run-outcome named fresh 7 calm idle (spec 5) (Outcome.failed 4) (nothing_yet ∷ []) over_now
      (inl (refl, refl), tt) refl

abbrev boom : Runtime.RunError ℕ
boom = Runtime.panicked_with "boom"

run_text-injective_example : boom ≡ boom
run_text-injective_example = run_text-injective (λ (e : ℕ). "failed") boom boom tt tt refl
