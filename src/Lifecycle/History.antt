-- ===== src/Lifecycle/History.antt =====
-- src/lifecycle.rs: what a whole history of operations does to one control.
use Prim.Native.Nat.{max}
use resourcery.Lifecycle.CancelLoop.{rank}
use resourcery.Base.{
  ℕ, ◌≡◌, ap, ◌∙◌, Bool, true, false, List, [], ◌∷◌, ◌++◌, ◌&&◌, arith, if◌then◌else◌,
}
use resourcery.Lifecycle.{
  Token, starting, active, cancelling, finished, Control, new, activate, finish, cancel,
  cancellable,
}

-- The operations that other code calls on a control, in the order in which they take effect.
pub data Op : Type 0 where
  activates cancels finishes : Op

unfoldable pub step : Control → Op → Control × List Token
unfolding activate cancel finish
step c activates = ((activate c).0, [])
step c cancels = cancel c
step c finishes = (finish c, [])

unfoldable pub run : Control → List Op → Control × List Token
run c [] = (c, [])
run c (o ∷ os) = let (c', calls) = step c o in let (c'', later) = run c' os in (c'', calls ++ later)

-- Whether a cancel comes before the first finish.
abbrev pub cancel_first : List Op → Bool
cancel_first [] = false
cancel_first (activates ∷ os) = cancel_first os
cancel_first (cancels ∷ os) = true
cancel_first (finishes ∷ os) = false

-- The tokens that a history cancels, from what the control is before it.
abbrev pub requested : Control → List Op → List Token
requested c os = if cancellable c.phase && cancel_first os then c.cancellation ∷ [] else []

requested-step :
    (c : Control) (o : Op) (os : List Op)
    → (step c o).1 ++ requested (step c o).0 os ≡ requested c (o ∷ os)
unfolding step
requested-step c activates os = ground arith
requested-step c cancels os = ground arith
requested-step c finishes os = ground arith

run-requested : (c : Control) (os : List Op) → (run c os).1 ≡ requested c os
unfolding run
run-requested c [] = ground arith
run-requested c (o ∷ os) =
    ap (◌++◌ (step c o).1) (run-requested (step c o).0 os) ∙ requested-step c o os

-- Over every history of a new control, its token is cancelled exactly once if some cancel comes
-- before the first finish, and never otherwise.
pub run-new-calls :
    (t : Token) (os : List Op) → (run (new t) os).1 ≡ (if cancel_first os then t ∷ [] else [])
unfolding new
run-new-calls t os = run-requested (new t) os

-- The furthest phase that an operation of the history moves to, in any order.
abbrev pub furthest : List Op → ℕ
furthest [] = rank starting
furthest (activates ∷ os) = max (rank active) (furthest os)
furthest (cancels ∷ os) = max (rank cancelling) (furthest os)
furthest (finishes ∷ os) = rank finished

run-rank : (c : Control) (os : List Op) → rank (run c os).0.phase ≡ max (rank c.phase) (furthest os)
unfolding run step
run-rank c [] = ground arith
run-rank c (activates ∷ os) = ground (arith, run-rank (activate c).0 os)
run-rank c (cancels ∷ os) = ground (arith, run-rank (cancel c).0 os)
run-rank c (finishes ∷ os) = ground (arith, run-rank (finish c) os)

-- The phase after any history of a new control is the furthest phase that one of its operations
-- moves to: it does not depend on their order, so it never moves back.
pub run-new-rank : (t : Token) (os : List Op) → rank (run (new t) os).0.phase ≡ furthest os
unfolding new
run-new-rank t os = run-rank (new t) os ∙ ground arith
