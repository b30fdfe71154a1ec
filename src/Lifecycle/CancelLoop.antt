-- ===== src/Lifecycle/CancelLoop.antt =====
-- src/lifecycle.rs, `Control::cancel`: the compare-and-exchange loop among other threads.
use resourcery.Base.{
  ℕ, suc, ◌+◌, ◌≤◌, ◌≡◌, refl, Bool, true, false, not, ◌&&◌, List, [], ◌∷◌, arith, if◌then◌else◌,
}
use resourcery.Lifecycle.{Phase, starting, active, cancelling, finished, cancellable}

abbrev pub same : Phase → Phase → Bool
same starting starting = true
same active active = true
same cancelling cancelling = true
same finished finished = true
same _ _ = false

-- What one `compare_exchange_weak` meets: the phase in the cell at that moment, and whether the
-- exchange fails without cause, as a weak one may.
pub record Attempt : Type 0 where
  pub found : Phase
  pub spurious : Bool

pub data LoopResult : Type 0 where
  -- the phase read was not cancellable
  returned : Phase → LoopResult
  -- the exchange replaced this phase by `Cancelling`, and the token was cancelled
  cancelled : Phase → LoopResult
  -- still in the loop when the attempts are over
  spinning : LoopResult

abbrev pub exchanges : Phase → Attempt → Bool
exchanges current a = not a.spurious && same a.found current

unfoldable pub cancel_loop : Phase → List Attempt → LoopResult
cancel_loop current [] = if cancellable current then spinning else returned current
cancel_loop current (a ∷ rest) =
    let again = cancel_loop a.found rest in
    if cancellable current
    then (if exchanges current a then cancelled current else again)
    else returned current

abbrev pub rank : Phase → ℕ
rank starting = 0
rank active = 1
rank cancelling = 2
rank finished = 3

-- Other threads only move the phase forward.
abbrev pub Forward : Phase → List Attempt → Type 0
Forward p [] = Unit
Forward p (a ∷ rest) = (rank p ≤ rank a.found) × Forward a.found rest

-- The number of exchanges that do not fail without cause.
abbrev pub honest : List Attempt → ℕ
honest [] = 0
honest (a ∷ rest) = if a.spurious then honest rest else suc (honest rest)

abbrev pub Settles : LoopResult → Type 0
Settles (returned p) = cancellable p ≡ false
Settles (cancelled p) = cancellable p ≡ true
Settles spinning = ⊥

-- While other threads only move the phase forward, the loop of `cancel` ends once it has made two
-- exchanges that do not fail without cause (one, if it starts from `Active`; none, from a later
-- phase), however many others do. It then has either replaced `Starting` or `Active` by
-- `Cancelling`, or read a phase past both.
pub cancel_loop-Settles :
    (p : Phase) (attempts : List Attempt)
    → Forward p attempts
    → 2 ≤ rank p + honest attempts
    → Settles (cancel_loop p attempts)
unfolding cancel_loop
cancel_loop-Settles starting [] f h = absurd (omega arith)
cancel_loop-Settles active [] f h = absurd (omega arith)
cancel_loop-Settles cancelling [] f h = refl
cancel_loop-Settles finished [] f h = refl
cancel_loop-Settles p (a ∷ rest) f h = ground (arith, cancel_loop-Settles a.found rest f.1)
