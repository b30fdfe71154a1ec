-- ===== src/Ownership/Counts.antt =====
-- Sums over the generations, and counts of references.
use resourcery.Base.{
  ℕ, zero, suc, ◌+◌, ◌<◌, ◌≤◌, ◌≡◌, ◌≢◌, arith, inl, inr, List, [], ◌∷◌, ◌++◌, ◌==◌, ==_iff,
  Bool-cases,
}
use resourcery.Ownership.{count}

pub count-append : (g : ℕ) (xs ys : List ℕ) → count g (xs ++ ys) ≡ count g xs + count g ys
count-append g [] ys = omega arith
count-append g (x ∷ xs) ys = ground (arith, count-append g xs ys)

-- `f` summed over the numbers below `n`.
unfoldable pub sum_below : ℕ → (ℕ → ℕ) → ℕ
sum_below zero f = 0
sum_below (suc n) f = f n + sum_below n f

pub sum_below-eq :
    (n : ℕ) (f k : ℕ → ℕ) → ((h : ℕ) → h < n → f h ≡ k h) → sum_below n f ≡ sum_below n k
unfolding sum_below
sum_below-eq zero f k e = omega arith
sum_below-eq (suc n) f k e =
    omega (arith, e n (omega arith), sum_below-eq n f k (λ h l. e h (omega arith)))

pub le-sum_below : (n : ℕ) (f : ℕ → ℕ) (h : ℕ) → h < n → f h ≤ sum_below n f
unfolding sum_below
le-sum_below zero f h l = absurd (omega arith)
le-sum_below (suc n) f h l = elim (Bool-cases (h == n)) [
  | inl e ↦ ground (arith, ==_iff h n)
  | inr e ↦ omega (arith, le-sum_below n f h (ground arith))
]

-- Two functions that differ at one place.
pub sum_below_but :
    (n : ℕ) (f k : ℕ → ℕ) (g : ℕ)
    → g < n
    → ((h : ℕ) → h ≢ g → k h ≡ f h)
    → sum_below n k + f g ≡ sum_below n f + k g
unfolding sum_below
sum_below_but zero f k g l e = absurd (omega arith)
sum_below_but (suc n) f k g l e = elim (Bool-cases (n == g)) [
  | inl q ↦
      ground (arith, ==_iff n g, sum_below-eq n k f (λ h m. e h (λ p. ground (arith, ==_iff n g))))
  | inr q ↦ omega (arith, e n (λ p. ground arith), sum_below_but n f k g (ground arith) e)
]

-- A sum that is not zero has a summand that is not.
pub sum_below-pos : (n : ℕ) (f : ℕ → ℕ) → 0 < sum_below n f → (h : ℕ) × (h < n) × (0 < f h)
unfolding sum_below
sum_below-pos zero f l = absurd (omega arith)
sum_below-pos (suc n) f l = elim (Bool-cases (f n == 0)) [
  | inl q ↦ let (h, m, p) = sum_below-pos n f (ground arith) in (h, omega arith, p)
  | inr q ↦ (n, omega arith, ground arith)
]
