-- ===== src/Base/Heap.antt =====
-- A heap: cells by address. A cell that was never written holds what the heap starts with.
use Prim.Native.Nat.{ℕ}
use mathlib.Core.Path.{◌≡◌, sym, ap, ◌∙◌, fun_ext}
use mathlib.Core.Logic.{inl, inr}
use native.Mathlib.Omega.{arith}
use resourcery.Base.Tests.{◌==◌, ==_iff, Bool-cases, if◌then◌else◌}

module _ {ℓ} {A : Type ℓ} where
  abbrev pub update : (ℕ → A) → ℕ → A → ℕ → A
  update f i a j = if i == j then a else f j

  pub update_twice : (f : ℕ → A) (i : ℕ) (a b : A) → update (update f i a) i b ≡ update f i b
  update_twice f i a b = fun_ext (λ j. ground arith)

  pub update_self : (f : ℕ → A) (i : ℕ) (a : A) → f i ≡ a → update f i a ≡ f
  update_self f i a h = fun_ext (λ j. elim (Bool-cases (i == j)) [
    | inl e ↦ rw e (sym h ∙ ap f ((==_iff i j).0 e))
    | inr e ↦ rw e
  ])
