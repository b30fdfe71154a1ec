-- ===== src/Ownership/Operations.antt =====
-- src/context.rs, src/domain.rs and src/reference.rs: the operations that give references out, as runs
-- of the steps.
use resourcery.Base.{
  ℕ, zero, suc, ◌≡◌, refl, sym, subst, ◌∙◌, arith, inl, inr, Bool, true, false, Option, none, some,
  List, [], ◌∷◌, ◌++◌, ==_refl, if◌then◌else◌, Option-cases,
}
use resourcery.World.{Program, World, SlotState, starting, active}
use resourcery.Domain.{try_acquire}
use resourcery.Reference.{strong, set_strong, drop_ref, upgrade_entry, acquire_entry, upgrade}
use resourcery.Reference.Handles.{settled, upgrade-settled}
use resourcery.Registry.{slot}
use resourcery.Context.{get}
use resourcery.Ownership.{State, Reach, after, upgrades, drops, freed}

-- A reference that an operation gives out, if it does, is held outside.
abbrev pub gained : Option ℕ → List ℕ → List ℕ
gained none xs = xs
gained (some g) xs = g ∷ xs

module _ {P : Program} where
  abbrev pub with_refs : State P → World P → List ℕ → State P
  with_refs a w xs = record a { world = w; outside = xs }

  -- The result of an attempt to have a lease of `g`.
  abbrev pub Kept : State P → ℕ → World P × Bool → Type 0
  Kept a g (w, true) = Reach (with_refs a w (g ∷ a.outside))
  Kept a g (w, false) = Reach (with_refs a w a.outside)

  module _ {a : State P} (r : Reach a) (g n : ℕ) (e : strong a.world g ≡ suc n) where
    abbrev upgraded : World P
    upgraded = set_strong a.world g (suc (suc n))

    upgrade_entry-upgraded : upgrade_entry a.world g ≡ some upgraded
    unfolding upgrade_entry
    upgrade_entry-upgraded = rw (e, upgrade_entry)

    taken : Reach (with_refs a upgraded (g ∷ a.outside))
    taken = after r (upgrades g upgraded upgrade_entry-upgraded refl)

    -- The lease that is given back is not the last one.
    given_back : Reach (with_refs a (drop_ref upgraded g) a.outside)
    given_back =
        let nothing : freed a.retains upgraded g ≡ [] = ground (arith, ==_refl g) in
        subst (λ (xs : List ℕ). Reach (with_refs a (drop_ref upgraded g) (xs ++ a.outside))) nothing
          (after taken (drops g a.outside (λ k. refl) refl))

    settled-Kept :
        (alive tried : Bool) → Kept a g (settled upgraded (drop_ref upgraded g) alive tried)
    settled-Kept true true = taken
    settled-Kept true false = given_back
    settled-Kept false tried = given_back

    acquire_entry-settled :
        acquire_entry a.world g
        ≡ settled upgraded (drop_ref upgraded g) true (try_acquire upgraded g)
    unfolding acquire_entry
    acquire_entry-settled = rw (e, acquire_entry)

  acquire-at :
      {a : State P}
      → Reach a
      → (g n : ℕ) → strong a.world g ≡ n
      → Kept a g (acquire_entry a.world g)
  unfolding acquire_entry
  acquire-at {a} r g zero e =
      let nothing : acquire_entry a.world g ≡ (a.world, false) = rw (e, acquire_entry) in
      subst (Kept a g) (sym nothing) r
  acquire-at {a} r g (suc n) e =
      subst (Kept a g) (sym (acquire_entry-settled r g n e))
        (settled-Kept r g n e true (try_acquire (set_strong a.world g (suc (suc n))) g))

  pub acquire-Kept : {a : State P} → Reach a → (g : ℕ) → Kept a g (acquire_entry a.world g)
  acquire-Kept {a} r g = acquire-at r g (strong a.world g) refl

  upgrade-at :
      {a : State P} → Reach a → (g n : ℕ) → strong a.world g ≡ n → Kept a g (upgrade a.world g)
  unfolding upgrade
  upgrade-at {a} r g zero e =
      let nothing : upgrade a.world g ≡ (a.world, false) = rw (e, upgrade) in
      subst (Kept a g) (sym nothing) r
  upgrade-at {a} r g (suc n) e = subst (Kept a g) (sym (upgrade-settled a.world g n e)) (
      settled-Kept r g n e a.world.domain_alive
        (try_acquire (set_strong a.world g (suc (suc n))) g))

  -- What an operation of the world that gives out a reference comes to.
  abbrev pub Owns : State P → World P × Option ℕ → Type 0
  Owns a (w, given) = Reach (with_refs a w (gained given a.outside))

  abbrev pub given_if : ℕ → World P × Bool → World P × Option ℕ
  given_if g (w, b) = (w, if b then some g else none)

  Kept-Owns : (a : State P) (g : ℕ) (p : World P × Bool) → Kept a g p → Owns a (given_if g p)
  Kept-Owns a g (w, true) k = k
  Kept-Owns a g (w, false) k = k

  got : ℕ → World P × Bool → World P × Option ℕ
  got g (w, b) = if b then (w, some g) else (w, none)

  got_eq : (g : ℕ) (p : World P × Bool) → got g p ≡ given_if g p
  unfolding got
  got_eq g (w, true) = refl
  got_eq g (w, false) = refl

  get-at :
      (a : State P)
      → Reach a
      → (t : ℕ) (key : P.Key) (s : ℕ) → slot a.world t key ≡ some s
      → (state : SlotState) → a.world.slots s ≡ state
      → Owns a (get a.world t key)
  unfolding get got
  get-at a r t key s e (starting m) q =
      let nothing : get a.world t key ≡ (a.world, none) = rw (e, get, q) in
      subst (Owns a) (sym nothing) r
  get-at a r t key s e (active m g) q =
      let found : get a.world t key ≡ got g (acquire_entry a.world g) = rw (e, get, q) in
      subst (Owns a) (sym (found ∙ got_eq g (acquire_entry a.world g)))
        (Kept-Owns a g (acquire_entry a.world g) (acquire-Kept r g))

  pub get-Owns : (a : State P) → Reach a → (t : ℕ) (key : P.Key) → Owns a (get a.world t key)
  unfolding get
  get-Owns a r t key = elim (Option-cases (slot a.world t key)) [
    | inl e ↦
        let nothing : get a.world t key ≡ (a.world, none) = rw (e, get) in
        subst (Owns a) (sym nothing) r
    | inr (s, e) ↦ get-at a r t key s e (a.world.slots s) refl
  ]

  pub upgrade-Owns : (a : State P) → Reach a → (g : ℕ) → Owns a (given_if g (upgrade a.world g))
  upgrade-Owns a r g = Kept-Owns a g (upgrade a.world g) (upgrade-at r g (strong a.world g) refl)
