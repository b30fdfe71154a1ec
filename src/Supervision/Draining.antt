-- ===== src/Supervision/Draining.antt =====
-- src/domain.rs: a shutdown comes to its end when the last supervisor does.
use resourcery.Base.{◌≡◌, ◌≢◌, Bool, true, false, List, [], ◌∷◌}
use resourcery.Lifecycle
use resourcery.World.{Program, World, shutting_down, terminated, Call, notify_quiescent}

-- Whether `quiescent.notify_waiters()` was called.
abbrev pub woken : {E : Type 0} → List (Call E) → Bool
woken [] = false
woken (notify_quiescent ∷ calls) = true
woken (_ ∷ calls) = woken calls

module _ {P : Program} where
  record Busy (w : World P) : Type 0 where
    busy : w.phase ≡ shutting_down → w.tasks ≢ []
    told : w.phase ≡ terminated → woken w.calls ≡ true
