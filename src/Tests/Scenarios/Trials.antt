-- ===== src/Tests/Scenarios/Trials.antt =====
-- src/context.rs, the resources of its tests and what the tests look at.

use resourcery.Base.{ℕ, Bool, true, false, Option, none, some, List, [], ◌∷◌, length}
use resourcery.Placement.{unique, singleton, keyed}
use resourcery.Lifecycle.{child}
use resourcery.World.{World, Outcome, completed, panicked, aborted}
use resourcery.Reference.{Observed, wait}
use resourcery.Context.{
  Resource, Result, ok, err, occupied, shutting_down, construction_panicked, Acquisition, ready,
  suspended, unreachable, Status, absent, in_construction, leased,
}
use resourcery.Context.Settled.{outcomes}
use resourcery.Moves.Invariant.{signals}
use resourcery.Tests.Samples.{sample}

-- `TestResource`, by the key of its input. The counter of cancellations that the input also carries
-- is read off the calls: `cancellations`.
abbrev pub test_resource : Resource sample
test_resource = record {
  type_id = 1;
  Input = ℕ;
  KeyedKey = ℕ;
  placement = keyed (λ key. key);
  embed = λ key. key;
}

-- `PanicResource`, `StartingResource` and `ConstructionPanic`.
abbrev singleton_resource : ℕ → Resource sample
singleton_resource t = record {
  type_id = t;
  Input = Unit {0};
  KeyedKey = ℕ;
  placement = singleton;
  embed = λ key. 0;
}

abbrev pub panic_resource : Resource sample
panic_resource = singleton_resource 2

abbrev pub starting_resource : Resource sample
starting_resource = singleton_resource 3

abbrev pub construction_panic : Resource sample
construction_panic = singleton_resource 4

-- `StuckResource` and `FastResource`.
abbrev unique_resource : ℕ → Resource sample
unique_resource t = record {
  type_id = t;
  Input = Unit {0};
  KeyedKey = ℕ;
  placement = unique;
  embed = λ key. 0;
}

abbrev pub stuck_resource : Resource sample
stuck_resource = unique_resource 5

abbrev pub fast_resource : Resource sample
fast_resource = unique_resource 6

abbrev pub cancellations : World sample → ℕ → ℕ
cancellations w g = signals (child g) w.calls

-- `completion().wait()`, at a moment at which the outcome is sent or is not yet.
abbrev pub observed : List (Outcome ℕ) → Observed ℕ
observed [] = record { value = none; closed = false }
observed (outcome ∷ rest) = record { value = some outcome; closed = false }

unfoldable pub await_outcome : World sample → ℕ → Option (Outcome ℕ)
unfolding wait
await_outcome w g = wait (observed (outcomes g w.calls) ∷ [])

abbrev pub is_completed : Option (Outcome ℕ) → Bool
is_completed (some completed) = true
is_completed _ = false

abbrev pub is_aborted : Option (Outcome ℕ) → Bool
is_aborted (some aborted) = true
is_aborted _ = false

abbrev pub is_panicked : Option (Outcome ℕ) → Bool
is_panicked (some (panicked message)) = true
is_panicked _ = false

-- The generation that an acquisition returned; another number than any, if it returned none.
abbrev pub none_such : ℕ
none_such = 1000000

abbrev pub acquired : Result ℕ → ℕ
acquired (ok g) = g
acquired (err e) = none_such

abbrev pub is_shutting_down : Result ℕ → Bool
is_shutting_down (err shutting_down) = true
is_shutting_down _ = false

abbrev pub is_construction_panicked : Result ℕ → Bool
is_construction_panicked (err construction_panicked) = true
is_construction_panicked _ = false

-- `get_or_spawn(…).await`, which does not have to wait.
abbrev pub settled : World sample → Acquisition sample → World sample × Result ℕ
settled w (ready u r) = (u, r)
settled w (suspended u) = (u, err occupied)
settled w unreachable = (w, err occupied)

abbrev pub is_absent : Status → Bool
is_absent absent = true
is_absent _ = false

abbrev pub is_starting : Status → Bool
is_starting in_construction = true
is_starting _ = false

abbrev pub is_leased : Status → Bool
is_leased (leased g) = true
is_leased _ = false

abbrev pub is_none : {A : Type 0} → Option A → Bool
is_none none = true
is_none (some a) = false

-- `Domain::active_tasks`.
abbrev pub active_tasks : World sample → ℕ
active_tasks w = length w.tasks
