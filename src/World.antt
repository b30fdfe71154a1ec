-- ===== src/World.antt =====
-- The state that the parts of the library share. What the source keeps behind an `Arc` is a cell of
-- a heap, named by its address; the calls that the code makes of other packages are recorded in the
-- order in which it makes them.
use Prim.Native.String.{String}
use resourcery.Base.{ℕ, Bool, true, Option, none, List, []}
use resourcery.DashMap.{DashMap}
use resourcery.Lifecycle
use resourcery.Lifecycle.{Control, Token, child}

-- What an application brings: the keys of its canonical resources, their interfaces and errors,
-- and the maps of the `dashmap` package at the types at which src/domain.rs uses them. The key of
-- one resource type is a part of `Key`, and so is an error of `Error`.
pub record Program : Type 1 where
  pub Key : Type 0
  pub Interface : Type 0
  pub Error : Type 0
  -- `Registry::entries`: a key's slot
  pub entries : DashMap Key ℕ
  -- `Registry::live`: a task's entry
  pub live : DashMap ℕ ℕ

-- src/reference.rs, `ResourceOutcome`.
pub data Outcome (Error : Type 0) : Type 0 where
  completed : Outcome Error
  failed : Error → Outcome Error
  panicked : (message : String) → Outcome Error
  aborted : Outcome Error

-- src/domain.rs, `RegistrySlotState`: the entry is named by its generation.
pub data SlotState : Type 0 where
  starting : (generation : ℕ) → SlotState
  active : (generation entry : ℕ) → SlotState

-- src/domain.rs, `DomainPhase`.
pub data DomainPhase : Type 0 where
  running shutting_down terminated : DomainPhase

-- The calls of other packages: `CancellationToken::cancel`, `AbortHandle::abort`,
-- `Notify::notify_waiters` on `quiescent`, `Event::notify` on a slot, the `oneshot` that starts a
-- task, and the `watch` channel that publishes its outcome.
pub data Call (Error : Type 0) : Type 0 where
  cancel_token : Token → Call Error
  abort : (generation : ℕ) → Call Error
  notify_quiescent : Call Error
  notify_slot : (slot : ℕ) → Call Error
  start : (generation : ℕ) → Call Error
  publish : (generation : ℕ) → Outcome Error → Call Error

module _ (P : Program) where
  open P use {Key, Interface, Error, entries, live}

  -- The variables that the closure `on_finish` of `finish_canonical_creation` captures.
  pub record Cleanup : Type 0 where
    pub type_id : ℕ
    pub key : Key
    pub slot : ℕ
    pub generation : ℕ

  -- What `create` makes for one generation: the `Control`, the `Entry` with its strong count, and
  -- the closure that its supervisor runs. An address that is not in use has no interface.
  pub record Generation : Type 0 where
    pub control : Control
    pub interface : Option Interface
    pub strong : ℕ
    pub type_id : ℕ
    pub on_finish : Option Cleanup
    -- the task id that the supervisor was given, once the task is registered
    pub task_id : Option ℕ

  -- src/domain.rs, `Registry`.
  pub record Registry : Type 0 where
    pub slot_of : entries.Map
    pub live_entries : live.Map

  -- src/domain.rs, `Domain` with its `Supervisor`, and the heap. `tasks` is the `HashMap` of the
  -- supervisor; an entry names the generation whose control and abort handle it holds.
  pub record World : Type 0 where
    pub phase : DomainPhase
    pub next_task : ℕ
    pub tasks : List (ℕ × ℕ)
    -- whether an `Arc<Domain>` is left
    pub domain_alive : Bool
    pub registries : ℕ → Registry
    pub generations : ℕ → Generation
    pub next_generation : ℕ
    pub slots : ℕ → SlotState
    pub next_slot : ℕ
    -- the latest call first
    pub calls : List (Call Error)

module _ {P : Program} where
  -- An address of the heap that is not in use.
  abbrev pub no_generation : ℕ → Generation P
  no_generation g = record {
    control = Lifecycle.new (child g);
    interface = none;
    strong = 0;
    type_id = 0;
    on_finish = none;
    task_id = none;
  }

  -- `Domain::new`. A registry is made when its type is first used (`Domain::registry`); until then
  -- it is the empty one, as `Registry::default` makes it.
  unfoldable pub new_world : World P
  unfolding Lifecycle.new
  new_world = record {
    phase = running;
    next_task = 0;
    tasks = [];
    domain_alive = true;
    registries = λ _. record { slot_of = P.entries.empty; live_entries = P.live.empty };
    generations = no_generation;
    next_generation = 0;
    slots = λ _. starting 0;
    next_slot = 0;
    calls = [];
  }
