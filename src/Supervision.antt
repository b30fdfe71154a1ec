-- ===== src/Supervision.antt =====
-- src/context.rs, the futures that `create` spawns to supervise the tasks, and src/domain.rs, the
-- bookkeeping of these: all supervisors, each at a point of its future, among the other threads.
pub mod Tasks
pub mod Invariant
pub mod Steps
pub mod Duties
pub mod Creation
pub mod Quiescence
pub mod Histories
pub mod Draining
use resourcery.Base.{ℕ, suc, ◌≡◌, Bool, true, false, Option, none, some, ◌∷◌, if◌then◌else◌, update}
use resourcery.World.{Program, Cleanup, World, Outcome, Call, publish, new_world}
use resourcery.Domain.{is_accepting, task_finished}
use resourcery.Registry.{remove_live}
use resourcery.Context.{Joined, establish, outcome_of, finish_control, run_cleanup}
use resourcery.Moves.{
  Move, registers, closes, shuts, cancels, finishes, leases, releases, reclaims, opens, installs,
  removes, lists, unlists, allocates, supervises, calls_out,
}

-- Where the supervisor of a generation is, with the id of its task and, from the end of the task
-- on, the outcome: it does not exist; its task is registered, and it is still to be spawned; it
-- awaits the task; `control.finish` is done; the cleanup is; the outcome is sent; the entry is off
-- the list of live ones; the finalizer was dropped.
pub data Duty (E : Type 0) : Type 0 where
  absent : Duty E
  registered : (id : ℕ) → Duty E
  watching : (id : ℕ) → Duty E
  finished cleaned published unlisted : (id : ℕ) → Outcome E → Duty E
  retired : Outcome E → Duty E

pub record State (P : Program) : Type 0 where
  pub world : World P
  -- the supervisors, by their generations
  pub duties : ℕ → Duty P.Error

-- The `send` of an outcome.
abbrev pub is_publish : {E : Type 0} → Call E → Bool
is_publish (publish g outcome) = true
is_publish _ = false

module _ {P : Program} where
  open P use {Interface, Error}

  -- The actions of other threads, which neither create a generation nor supervise one.
  abbrev pub Elsewhere : {w u : World P} → Move w u → Type 0
  Elsewhere (shuts e) = Unit
  Elsewhere (cancels g h e) = Unit
  Elsewhere (leases g n h e) = Unit
  Elsewhere (releases g n h e) = Unit
  Elsewhere (reclaims s n g a h d e) = Unit
  Elsewhere (opens t key h e) = Unit
  Elsewhere (installs c g e) = Unit
  Elsewhere (removes t key s n e) = Unit
  Elsewhere (calls_out c h e) = is_publish c ≡ false
  Elsewhere _ = ⊥

  pub data Step (a b : State P) : Type 0 where
    elsewhere : (m : Move a.world b.world) → Elsewhere m → b.duties ≡ a.duties → Step a b
    -- `create` after a build, up to the spawn of the supervisor
    creates :
        (t : ℕ) (on_finish : Option (Cleanup P)) (interface : Interface)
        → b ≡ record {
          world = (establish a.world t on_finish interface).0;
          duties =
              update a.duties a.world.next_generation
                (if is_accepting a.world then registered a.world.next_task else absent);
        }
        → Step a b
    -- `create` spawns the supervisor
    spawns :
        (g id : ℕ)
        → a.duties g ≡ registered id
        → b ≡ record { world = a.world; duties = update a.duties g (watching id) }
        → Step a b
    -- the task is over
    ends :
        (g id : ℕ) (joined : Joined Error)
        → a.duties g ≡ watching id
        → b ≡ record {
          world = finish_control a.world g;
          duties = update a.duties g (finished id (outcome_of joined));
        }
        → Step a b
    cleans :
        (g id : ℕ) (outcome : Outcome Error)
        → a.duties g ≡ finished id outcome
        → b ≡ record {
          world = run_cleanup a.world (a.world.generations g).on_finish;
          duties = update a.duties g (cleaned id outcome);
        }
        → Step a b
    -- the cleanup panics
    skips :
        (g id : ℕ) (outcome : Outcome Error)
        → a.duties g ≡ finished id outcome
        → b ≡ record { world = a.world; duties = update a.duties g (cleaned id outcome) }
        → Step a b
    publishes :
        (g id : ℕ) (outcome : Outcome Error)
        → a.duties g ≡ cleaned id outcome
        → b ≡ record {
          world = record a.world { calls = publish g outcome ∷ a.world.calls };
          duties = update a.duties g (published id outcome);
        }
        → Step a b
    delists :
        (g id t : ℕ) (outcome : Outcome Error)
        → a.duties g ≡ published id outcome
        → b ≡ record {
          world = remove_live a.world t id;
          duties = update a.duties g (unlisted id outcome);
        }
        → Step a b
    -- the drop of the `TaskFinalizer`
    retires :
        (g id : ℕ) (outcome : Outcome Error)
        → a.duties g ≡ unlisted id outcome
        → b ≡ record {
          world = task_finished a.world id;
          duties = update a.duties g (retired outcome);
        }
        → Step a b

  abbrev pub initial : State P
  initial = record { world = new_world; duties = λ g. absent }

  -- The states that a new runtime reaches in so many steps.
  pub data Reach : ℕ → State P → Type 0 where
    begin : Reach 0 initial
    after : {k : ℕ} {a b : State P} → Reach k a → Step a b → Reach (suc k) b

  -- The runs of so many steps, the first one first.
  pub data Run : ℕ → State P → State P → Type 0 where
    stop : {a : State P} → Run 0 a a
    go : {n : ℕ} {a b c : State P} → Step a b → Run n b c → Run (suc n) a c
