-- ===== src/Lifecycle.antt =====
-- src/lifecycle.rs: the phase of one generation, and the operations of its `Control`.
--
-- `AtomicU8` is a cell that every operation reads or writes in one step. The cancellation token is
-- a handle of another package: the model names the token on which `cancel` is called.
pub mod CancelLoop
pub mod History
use resourcery.Base.{Bool, true, false, List, [], ◌∷◌, if◌then◌else◌}

-- The handles of `CancellationToken`: the domain's own, and the child token that the n-th
-- generation is given.
pub data Token : Type 0 where
  shutdown : Token
  child : (generation : Prim.Native.Nat.ℕ) → Token

pub data Phase : Type 0 where
  starting active cancelling finished : Phase

pub record Control : Type 0 where
  pub phase : Phase
  pub cancellation : Token

unfoldable pub new : Token → Control
new cancellation = record { phase = starting; cancellation = cancellation }

-- compare_exchange(Starting, Active): only a control that is starting becomes active.
unfoldable pub activate : Control → Control × Bool
activate c = elim c.phase [ starting ↦ (record c { phase = active }, true) | _ ↦ (c, false) ]

unfoldable pub is_active : Control → Bool
is_active c = elim c.phase [ active ↦ true | _ ↦ false ]

unfoldable pub finish : Control → Control
finish c = record c { phase = finished }

-- The phases from which `cancel` goes on to its exchange.
abbrev pub cancellable : Phase → Bool
cancellable starting = true
cancellable active = true
cancellable cancelling = false
cancellable finished = false

-- `cancel` with no other thread between its load and its exchange: the control after it, and the
-- tokens on which `CancellationToken::cancel` was called. `CancelLoop` has the loop itself.
unfoldable pub cancel : Control → Control × List Token
cancel c =
    if cancellable c.phase then (record c { phase = cancelling }, c.cancellation ∷ []) else (c, [])
