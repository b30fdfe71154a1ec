-- ===== src/System/Resumption.antt =====
-- src/context.rs: a caller that waits for another's construction is resumed.
use resourcery.Base.{
  ap, ℕ, suc, ◌+◌, ◌^◌, ◌≤◌, ◌<◌, ◌≡◌, refl, ◌⊎◌, inl, inr, some, arith, ◌==◌, ==_iff, Bool-cases,
  update, if◌then◌else◌,
}
use resourcery.World.{Program}
use resourcery.System.{
  Stage, idle, building, created, failing, telling, waiting, wake, State, Step, quiet, takes_over,
  enters, establishes, abandons, publishes, refuses, vacates, tells, waits, leaves, cleans, creates,
  Reach, Run, stop, go,
}
use resourcery.System.Waiting.{owes}
use resourcery.System.Notification.{Reach-Heard}

module _ {P : Program} where
  -- The caller that takes a step, against a caller: 1 if they are the same.
  abbrev turn : ℕ → {a b : State P} → Step a b → ℕ
  turn j (quiet m q e) = 0
  turn j (takes_over i t key s n g free look state accepting dead e) = if i == j then 1 else 0
  turn j (enters i t key free vacant accepting e) = if i == j then 1 else 0
  turn j (establishes i c iface s e) = if i == j then 1 else 0
  turn j (abandons i c s e) = if i == j then 1 else 0
  turn j (publishes i c g s e) = if i == j then 1 else 0
  turn j (refuses i c g s closed e) = if i == j then 1 else 0
  turn j (vacates i c s e) = if i == j then 1 else 0
  turn j (tells i s told e) = if i == j then 1 else 0
  turn j (waits i t key s n free look state e) = if i == j then 1 else 0
  turn j (leaves i s w e) = if i == j then 1 else 0
  turn j (cleans g c s over e) = 0
  turn j (creates t iface e) = 0

  -- How many steps a caller takes in a run.
  abbrev pub turns : ℕ → {a b : State P} → Run a b → ℕ
  turns j stop = 0
  turns j (go s r) = turn j s + turns j r

  -- In some state of the run the caller does not wait for the slot.
  abbrev pub Resumes : ℕ → ℕ → {a b : State P} → Run a b → Type 0
  Resumes i s {a} stop = ¬ (a.stages i ≡ waiting s)
  Resumes i s {a} (go st r) = ¬ (a.stages i ≡ waiting s) ⊎ Resumes i s r

  -- The steps that a caller takes at most before it has notified.
  abbrev left : Stage P → ℕ
  left idle = 0
  left (building c) = 4
  left (created c g) = 3
  left (failing c) = 2
  left (telling s) = 1
  left (waiting s) = 0

  left-bound : (stage : Stage P) → left stage ≤ 4
  left-bound stage = ground arith

  -- A step either resumes all who wait for a slot, or it leaves to the caller that owes them the
  -- notification what it owes, and takes it nearer to it if it is its own.
  abbrev Nears : ℕ → ℕ → ℕ → State P → State P → ℕ → Type 0
  Nears i j s a b n =
      (¬ (b.stages i ≡ waiting s))
      ⊎ ((owes (b.stages j) ≡ some s) × (left (b.stages j) + n ≤ left (a.stages j)))

  -- One caller goes from a stage to another.
  own-Nears :
      (i j l s : ℕ) (a b : State P) (stage : Stage P)
      → b.stages ≡ update a.stages l stage
      → owes (a.stages j) ≡ some s
      → (owes (a.stages l) ≡ some s
          → (owes stage ≡ some s) × (suc (left stage) ≤ left (a.stages l)))
      → Nears i j s a b (if l == j then 1 else 0)
  own-Nears i j l s a b stage e o h = inr (elim (Bool-cases (l == j)) [
    | inl q ↦
        let p : l ≡ j = (==_iff l j).0 q in
        let (x, y) = h (rw p o) in
        let y' : suc (left stage) ≤ left (a.stages j) = rw p at y in
        rw (e, q) (x, omega (arith, y'))
    | inr q ↦ rw (e, q) (o, omega arith)
  ])

  wake-owes : (s x : ℕ) (stage : Stage P) → owes stage ≡ some s → wake x stage ≡ stage
  wake-owes s x idle o = refl
  wake-owes s x (building c) o = refl
  wake-owes s x (created c g) o = refl
  wake-owes s x (failing c) o = refl
  wake-owes s x (telling y) o = refl
  wake-owes s x (waiting y) o = cc

  tells-Nears :
      (i j l s x : ℕ) (a b : State P)
      → a.stages l ≡ telling x
      → ((m : ℕ) → b.stages m ≡ wake x (update a.stages l idle m))
      → owes (a.stages j) ≡ some s
      → Nears i j s a b (if l == j then 1 else 0)
  tells-Nears i j l s x a b told e o = elim (Bool-cases (x == s)) [
    | inl q ↦ inl (λ w. ground (arith, e i))
    | inr q ↦ inr (elim (Bool-cases (l == j)) [
      | inl p ↦ absurd (ground arith)
      | inr p ↦ rw (e j, p, wake-owes s x (a.stages j) o) (o, omega arith)
    ])
  ]

  Step-Nears :
      (i j s : ℕ) {a b : State P} (st : Step a b)
      → owes (a.stages j) ≡ some s
      → Nears i j s a b (turn j st)
  Step-Nears i j s (quiet m q e) o = inr (rw e (o, omega arith))
  Step-Nears i j s {a} {b} (takes_over l t key x n g free look state accepting dead e) o =
      own-Nears i j l s a b _ (ap (λ (z : State P). z.stages) e) o (λ p. cc (free, p))
  Step-Nears i j s {a} {b} (enters l t key free vacant accepting e) o =
      own-Nears i j l s a b _ (ap (λ (z : State P). z.stages) e) o (λ p. cc (free, p))
  Step-Nears i j s {a} {b} (establishes l c iface f e) o =
      own-Nears i j l s a b _ (ap (λ (z : State P). z.stages) e) o (λ p. ground arith)
  Step-Nears i j s {a} {b} (abandons l c f e) o =
      own-Nears i j l s a b _ (ap (λ (z : State P). z.stages) e) o (λ p. ground arith)
  Step-Nears i j s {a} {b} (publishes l c g f e) o =
      own-Nears i j l s a b _ (ap (λ (z : State P). z.stages) e) o (λ p. ground arith)
  Step-Nears i j s {a} {b} (refuses l c g f closed e) o =
      own-Nears i j l s a b _ (ap (λ (z : State P). z.stages) e) o (λ p. ground arith)
  Step-Nears i j s {a} {b} (vacates l c f e) o =
      own-Nears i j l s a b _ (ap (λ (z : State P). z.stages) e) o (λ p. ground arith)
  Step-Nears i j s {a} {b} (tells l x told e) o =
      tells-Nears i j l s x a b told (λ m. ap (λ (z : State P). z.stages m) e) o
  Step-Nears i j s {a} {b} (waits l t key x n free look state e) o =
      own-Nears i j l s a b _ (ap (λ (z : State P). z.stages) e) o (λ p. cc (free, p))
  Step-Nears i j s {a} {b} (leaves l x w e) o =
      own-Nears i j l s a b _ (ap (λ (z : State P). z.stages) e) o (λ p. cc (w, p))
  Step-Nears i j s (cleans g c f over e) o = inr (rw e (o, omega arith))
  Step-Nears i j s (creates t iface e) o = inr (rw e (o, omega arith))

  Resumes-here :
      {i s : ℕ} {a b : State P} (r : Run a b) → ¬ (a.stages i ≡ waiting s) → Resumes i s r
  Resumes-here stop n = n
  Resumes-here (go st r) n = inl n

  left-owes : (stage : Stage P) (s : ℕ) → owes stage ≡ some s → 1 ≤ left stage
  left-owes stage s o = ground arith

  resumes :
      (i j s : ℕ) {a b : State P} (r : Run a b)
      → owes (a.stages j) ≡ some s
      → left (a.stages j) ≤ turns j r
      → Resumes i s r
  resumes i j s {a} stop o h = absurd (omega (arith, left-owes (a.stages j) s o))
  resumes i j s (go st r) o h = elim (Step-Nears i j s st o) [
    | inl n ↦ inr (Resumes-here r n)
    | inr (o', n) ↦ inr (resumes i j s r o' (omega arith))
  ]

  -- No wake-up is lost. In every state that racing callers reach in fewer than 2 ^ 64 - 1 steps, a
  -- caller that waits for a slot is resumed in every run from there, in any interleaving, in which
  -- those who owe that slot a notification take four steps each; and somebody owes it one.
  pub Reach-Resumes :
      {k : ℕ} {a b : State P} (reached : Reach k a) (r : Run a b) (i s : ℕ)
      → suc k < 2 ^ 64
      → a.stages i ≡ waiting s
      → ((j : ℕ) → owes (a.stages j) ≡ some s → 4 ≤ turns j r)
      → ((j : ℕ) × (owes (a.stages j) ≡ some s)) × Resumes i s r
  Reach-Resumes {a = a} reached r i s bound w fair =
      let (j, o) = (Reach-Heard reached bound).heard i s w in
      ((j, o), resumes i j s r o (omega (arith, fair j o, left-bound (a.stages j))))
