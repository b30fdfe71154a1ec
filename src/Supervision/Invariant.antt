-- ===== src/Supervision/Invariant.antt =====
-- What holds of the supervisors in every state that the program reaches.
use resourcery.Base.{ℕ, ◌≤◌, ◌<◌, ◌≡◌, refl, Option, none, some, List, [], ◌∷◌, arith}
use resourcery.Lifecycle
use resourcery.World.{Program, World, Outcome, terminated, new_world}
use resourcery.Domain.{control}
use resourcery.Context.Settled.{outcomes}
use resourcery.Supervision.{
  Duty, absent, registered, watching, finished, cleaned, published, unlisted, retired,
}
use resourcery.Supervision.Tasks.{find}

module _ {E : Type 0} where
  -- The task that a supervisor has not retired yet.
  abbrev pub task_id : Duty E → Option ℕ
  task_id absent = none
  task_id (registered id) = some id
  task_id (watching id) = some id
  task_id (finished id outcome) = some id
  task_id (cleaned id outcome) = some id
  task_id (published id outcome) = some id
  task_id (unlisted id outcome) = some id
  task_id (retired outcome) = none

  -- The outcomes that a supervisor has sent.
  abbrev pub sent : Duty E → List (Outcome E)
  sent (published id outcome) = outcome ∷ []
  sent (unlisted id outcome) = outcome ∷ []
  sent (retired outcome) = outcome ∷ []
  sent _ = []

  -- The outcome of a task that is over.
  abbrev pub settled : Duty E → Option (Outcome E)
  settled absent = none
  settled (registered id) = none
  settled (watching id) = none
  settled (finished id outcome) = some outcome
  settled (cleaned id outcome) = some outcome
  settled (published id outcome) = some outcome
  settled (unlisted id outcome) = some outcome
  settled (retired outcome) = some outcome

module _ {P : Program} where
  pub record Inv (k : ℕ) (w : World P) (duties : ℕ → Duty P.Error) : Type 0 where
    pub few : w.next_task ≤ k
    pub quiet : w.phase ≡ terminated → w.tasks ≡ []
    pub fresh : (g : ℕ) → w.next_generation ≤ g → duties g ≡ absent
    pub known : (id g : ℕ) → find id w.tasks ≡ some g → id < w.next_task
    pub watched : (id g : ℕ) → find id w.tasks ≡ some g → task_id (duties g) ≡ some id
    pub listed : (id g : ℕ) → task_id (duties g) ≡ some id → find id w.tasks ≡ some g
    pub reported : (g : ℕ) → outcomes g w.calls ≡ sent (duties g)
    pub over :
        (g : ℕ) (outcome : Outcome P.Error)
        → settled (duties g) ≡ some outcome
        → (control w g).phase ≡ Lifecycle.finished

  pub Inv-initial : Inv 0 (new_world {P = P}) (λ g. absent)
  unfolding new_world Lifecycle.new
  Inv-initial = record {
    few = omega arith;
    quiet = λ e. refl;
    fresh = λ g h. refl;
    known = λ id g e. cc;
    watched = λ id g e. cc;
    listed = λ id g e. cc;
    reported = λ g. refl;
    over = λ g o e. cc;
  }
