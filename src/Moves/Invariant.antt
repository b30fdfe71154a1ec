-- ===== src/Moves/Invariant.antt =====
-- What every atomic action keeps: the bookkeeping of tokens, tasks and addresses.
use resourcery.Base.{
  ℕ, suc, ◌≤◌, ◌<◌, ◌≡◌, refl, Bool, true, false, List, [], ◌∷◌, arith, All, ◌==◌, if◌then◌else◌,
  some,
}
use resourcery.Lifecycle
use resourcery.Lifecycle.{Token, shutdown, child, Phase, starting, active, cancelling, finished}
use resourcery.World.{Program, World, terminated, Call, cancel_token, new_world}
use resourcery.Domain.{control, is_accepting}
use resourcery.Reference.{strong}
use resourcery.Registry.{slot}

abbrev pub same_token : Token → Token → Bool
same_token shutdown shutdown = true
same_token (child g) (child h) = g == h
same_token _ _ = false

-- How often the calls cancel a token.
abbrev pub signals : {E : Type 0} → Token → List (Call E) → ℕ
signals t [] = 0
signals t (cancel_token u ∷ calls) =
    if same_token t u then suc (signals t calls) else signals t calls
signals t (_ ∷ calls) = signals t calls

-- How often its token was cancelled, at least and at most, for a control in a phase.
abbrev pub least : Phase → ℕ
least cancelling = 1
least _ = 0

abbrev pub most : Phase → ℕ
most starting = 0
most active = 0
most _ = 1

module _ {P : Program} where
  pub record Inv (w : World P) : Type 0 where
    -- no task is left in a domain that is terminated
    pub quiet : w.phase ≡ terminated → w.tasks ≡ []
    -- the domain's token was cancelled once if it does not accept, and never while it does
    pub signalled : signals shutdown w.calls ≡ (if is_accepting w then 0 else 1)
    pub token : (g : ℕ) → (control w g).cancellation ≡ child g
    -- a generation's token was cancelled once if its control is in the phase `Cancelling`, never
    -- while it is in one before, and once at most after
    pub at_least : (g : ℕ) → least (control w g).phase ≤ signals (child g) w.calls
    pub at_most : (g : ℕ) → signals (child g) w.calls ≤ most (control w g).phase
    -- nothing was done to an address that is not in use
    pub fresh_phase : (g : ℕ) → w.next_generation ≤ g → (control w g).phase ≡ starting
    pub fresh_strong : (g : ℕ) → w.next_generation ≤ g → strong w g ≡ 0
    pub known_tasks : All (λ task. task.1 < w.next_generation) w.tasks
    pub known_slots : (t : ℕ) (key : P.Key) (s : ℕ) → slot w t key ≡ some s → s < w.next_slot

  pub Inv-new : Inv (new_world {P = P})
  unfolding new_world slot is_accepting Lifecycle.new
  Inv-new = record {
    quiet = λ e. refl;
    signalled = refl;
    token = λ g. refl;
    at_least = λ g. omega arith;
    at_most = λ g. omega arith;
    fresh_phase = λ g h. refl;
    fresh_strong = λ g h. refl;
    known_tasks = tt;
    known_slots = λ t key s e. absurd (cc (P.entries.get-empty key));
  }
