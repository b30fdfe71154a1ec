-- ===== src/Tokens.antt =====
-- The cancellation tokens of the `tokio_util` package, as far as src/context.rs waits for them. The
-- package is not part of the repository: whether a token is cancelled is a function of the calls
-- made so far, with the documented laws.
use resourcery.Base.{Bool, true, false, List, ℕ, ◌≡◌, ◌≢◌}
use resourcery.Lifecycle.{Token, shutdown, child}
use resourcery.World.{Call}
use resourcery.Moves.Invariant.{signals}

pub record Tokens (E : Type 0) : Type 0 where
  pub is_cancelled : List (Call E) → Token → Bool
  -- `cancel` on the token itself
  pub by_call :
      (calls : List (Call E)) (t : Token) → signals t calls ≢ 0 → is_cancelled calls t ≡ true
  -- `cancel` on the token that made this one by `child_token`
  pub by_parent :
      (calls : List (Call E)) (g : ℕ)
      → signals shutdown calls ≢ 0
      → is_cancelled calls (child g) ≡ true
  -- and nothing else
  pub by_nothing :
      (calls : List (Call E)) (g : ℕ)
      → signals shutdown calls ≡ 0
      → signals (child g) calls ≡ 0
      → is_cancelled calls (child g) ≡ false
