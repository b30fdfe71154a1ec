-- ===== src/Moves/Operations/Leases.antt =====
-- src/reference.rs: leases.
use resourcery.Base.{ℕ, zero, suc, ◌<◌, ◌≡◌, refl, ap, inl, inr, true, false, arith, Bool-cases}
use native.Mathlib.Decide.{dec_lt}
use resourcery.World.{Program, World}
use resourcery.Domain.{try_acquire, is_accepting}
use resourcery.Reference.{strong, set_strong, drop_ref, clone_ref, acquire_entry, upgrade}
use resourcery.Moves.{Moves, here, next, one, chain, branch, leases, releases, cancels, Dead}
use resourcery.Moves.Invariant.{Inv}
use resourcery.Moves.Preservation.{Moves-Inv}

module _ {P : Program} where
  pub leased-known :
      {w : World P} → Inv w → (g : ℕ) {n : ℕ} → strong w g ≡ suc n → g < w.next_generation
  leased-known {w} v g e = elim (dec_lt g w.next_generation) [
    | yes h ↦ h
    | no h ↦ absurd (ground (arith, v.fresh_strong g))
  ]

  drop_ref-at : {w : World P} → Inv w → (g n : ℕ) → strong w g ≡ n → Moves w (drop_ref w g)
  unfolding drop_ref
  drop_ref-at v g zero e = rw (e, drop_ref) here
  drop_ref-at {w} v g (suc zero) e =
      rw (e, drop_ref) (next (one (releases g 0 e refl)) (cancels g (leased-known v g e) refl))
  drop_ref-at v g (suc (suc n)) e = rw (e, drop_ref) (one (releases g (suc n) e refl))

  pub drop_ref-Moves : {w : World P} → Inv w → (g : ℕ) → Moves w (drop_ref w g)
  drop_ref-Moves {w} v g = drop_ref-at v g (strong w g) refl

  clone_ref-Moves : {w : World P} (g n : ℕ) → strong w g ≡ suc n → Moves w (clone_ref w g)
  unfolding clone_ref
  clone_ref-Moves {w} g n e = one (leases g n e (ap (set_strong w g) (omega arith)))

  acquire_entry-at :
      {w : World P} → Inv w → (g n : ℕ) → strong w g ≡ n → Moves w (acquire_entry w g).0
  unfolding acquire_entry
  acquire_entry-at v g zero e = rw (e, acquire_entry) here
  acquire_entry-at {w} v g (suc n) e =
      let taken : Moves w (set_strong w g (suc (suc n))) = one (leases g n e refl) in
      elim (Bool-cases (try_acquire (set_strong w g (suc (suc n))) g)) [
        | inl t ↦ rw (e, acquire_entry, t) taken
        | inr t ↦ rw (e, acquire_entry, t) (chain taken (drop_ref-Moves (Moves-Inv taken v) g))
      ]

  pub acquire_entry-Moves : {w : World P} → Inv w → (g : ℕ) → Moves w (acquire_entry w g).0
  acquire_entry-Moves {w} v g = acquire_entry-at v g (strong w g) refl

  upgrade-at : {w : World P} → Inv w → (g n : ℕ) → strong w g ≡ n → Moves w (upgrade w g).0
  unfolding upgrade
  upgrade-at v g zero e = rw (e, upgrade) here
  upgrade-at {w} v g (suc n) e =
      let taken : Moves w (set_strong w g (suc (suc n))) = one (leases g n e refl) in
      let back = chain taken (drop_ref-Moves (Moves-Inv taken v) g) in
      rw (e, upgrade)
        (branch w.domain_alive _ _
          (λ _. branch (try_acquire (set_strong w g (suc (suc n))) g) _ _ (λ _. taken) (λ _. back))
          (λ _. back))

  pub upgrade-Moves : {w : World P} → Inv w → (g : ℕ) → Moves w (upgrade w g).0
  upgrade-Moves {w} v g = upgrade-at v g (strong w g) refl

  pub slots-acquire_entry : (w : World P) (g : ℕ) → (acquire_entry w g).0.slots ≡ w.slots
  unfolding acquire_entry
  slots-acquire_entry w g = ground arith

  pub registries-acquire_entry :
      (w : World P) (g : ℕ) → (acquire_entry w g).0.registries ≡ w.registries
  unfolding acquire_entry
  registries-acquire_entry w g = ground arith

  -- An entry that an accepting domain does not let a caller acquire can never be acquired again.
  pub acquire_entry-Dead :
      (w : World P) (g : ℕ)
      → (acquire_entry w g).1 ≡ false
      → is_accepting (acquire_entry w g).0 ≡ true
      → Dead (acquire_entry w g).0 g
  unfolding acquire_entry is_accepting
  acquire_entry-Dead w g f a = ground arith
