-- ===== src/Tests/Signals.antt =====
-- Tokens that meet the laws of `tokio_util`: the calls are looked through.
use resourcery.Base.{ℕ, Bool, true, false, not, ◌||◌, ◌==◌, List, ◌≡◌, ◌≢◌, arith}
use resourcery.Lifecycle.{Token, shutdown, child}
use resourcery.World.{Call}
use resourcery.Moves.Invariant.{signals}
use resourcery.Tokens.{Tokens}

abbrev occurs : Token → List (Call ℕ) → Bool
occurs t calls = not (signals t calls == 0)

unfoldable pub looked_up : List (Call ℕ) → Token → Bool
looked_up calls shutdown = occurs shutdown calls
looked_up calls (child g) = occurs (child g) calls || occurs shutdown calls

pub looked_up-call :
    (calls : List (Call ℕ)) (t : Token) → signals t calls ≢ 0 → looked_up calls t ≡ true
unfolding looked_up
looked_up-call calls shutdown h = ground arith
looked_up-call calls (child g) h = ground arith

pub looked_up-parent :
    (calls : List (Call ℕ)) (g : ℕ) → signals shutdown calls ≢ 0 → looked_up calls (child g) ≡ true
unfolding looked_up
looked_up-parent calls g h = ground arith

pub looked_up-nothing :
    (calls : List (Call ℕ)) (g : ℕ)
    → signals shutdown calls ≡ 0
    → signals (child g) calls ≡ 0
    → looked_up calls (child g) ≡ false
unfolding looked_up
looked_up-nothing calls g h e = ground arith

abbrev pub tokens : Tokens ℕ
tokens = record {
  is_cancelled = looked_up;
  by_call = looked_up-call;
  by_parent = looked_up-parent;
  by_nothing = looked_up-nothing;
}
