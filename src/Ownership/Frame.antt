-- ===== src/Ownership/Frame.antt =====
-- The actions that neither add nor end a reference leave the counts as they are.
use resourcery.Base.{ℕ, ◌<◌, ◌≡◌, refl, ap, ◌∙◌, arith, inl, inr, List, ==_iff}
use resourcery.World.{Program, World}
use resourcery.Domain.{cancel_control}
use resourcery.Domain.Frame.{
  generations-task_finished, next-task_finished, generations-cancel_locked, next-cancel_locked,
}
use resourcery.Domain.Register.{register_locked_cases}
use resourcery.Reference.{strong}
use resourcery.Registry.{insert_live, remove_live}
use resourcery.Registry.Cases.{claim_vacant_cases, remove_if_same_cases}
use resourcery.Context.{finish_control}
use resourcery.Moves.{
  Move, registers, closes, shuts, cancels, finishes, leases, releases, reclaims, opens, installs,
  removes, lists, unlists, allocates, supervises, calls_out,
}
use resourcery.Moves.Forward.{Move-Forward}
use resourcery.Ownership.{Unowned}
use resourcery.Ownership.Counts.{sum_below, sum_below-eq}
use resourcery.Ownership.Invariant.{Owned, share, retainers}

module _ {P : Program} where
  record Kept (w u : World P) : Type 0 where
    leases : (k : ℕ) → strong u k ≡ strong w k
    next : u.next_generation ≡ w.next_generation

  Kept-same :
      (w u : World P)
      → u.generations ≡ w.generations
      → u.next_generation ≡ w.next_generation
      → Kept w u
  Kept-same w u g n = record { leases = λ k. rw g; next = n }

  cancel_control-Kept : (w : World P) (g : ℕ) → Kept w (cancel_control w g)
  unfolding cancel_control
  cancel_control-Kept w g = record { leases = λ k. ground (arith, ==_iff g k); next = refl }

  Move-Kept : {w u : World P} (m : Move w u) → Unowned m → Kept w u
  unfolding finish_control insert_live remove_live
  Move-Kept {w} (registers g h e) q = rw e (elim (register_locked_cases w g) [
    | inl k ↦ rw k (Kept-same w w refl refl)
    | inr (a, p, k) ↦ rw k (record { leases = λ k. ground (arith, ==_iff g k); next = refl })
  ])
  Move-Kept {w} (closes id e) q =
      rw e (Kept-same w _ (generations-task_finished w id) (next-task_finished w id))
  Move-Kept {w} (shuts e) q =
      rw e (Kept-same w _ (generations-cancel_locked w) (next-cancel_locked w))
  Move-Kept {w} (cancels g h e) q = rw e (cancel_control-Kept w g)
  Move-Kept {w} (finishes g h e) q =
      rw e (record { leases = λ k. ground (arith, ==_iff g k); next = refl })
  Move-Kept {w} (reclaims s n g a p d e) q = rw e (Kept-same w _ refl refl)
  Move-Kept {w} (opens t key p e) q = rw e (elim (claim_vacant_cases w t key) [
    | inl (a, k) ↦ rw k (Kept-same w w refl refl)
    | inr (a, k) ↦ rw k (Kept-same w _ refl refl)
  ])
  Move-Kept {w} (installs c g e) q = rw e (Kept-same w _ refl refl)
  Move-Kept {w} (removes t key s n e) q = rw e (elim (remove_if_same_cases w t key s n) [
    | inl k ↦ rw k (Kept-same w w refl refl)
    | inr (a, b, k) ↦ rw k (Kept-same w _ refl refl)
  ])
  Move-Kept {w} (lists t id g e) q = rw e (Kept-same w _ refl refl)
  Move-Kept {w} (unlists t id e) q = rw e (Kept-same w _ refl refl)
  Move-Kept {w} (supervises g id h e) q =
      rw e (record { leases = λ k. ground (arith, ==_iff g k); next = refl })
  Move-Kept {w} (calls_out c h e) q = rw e (Kept-same w _ refl refl)
  Move-Kept (leases g n h e) q = absurd q
  Move-Kept (releases g n h e) q = absurd q
  Move-Kept (allocates t f i e) q = absurd q

  -- The sum is over the same generations, with the same summands.
  pub retainers-eq :
      (w u : World P) (retains more : ℕ → List ℕ) (k : ℕ)
      → u.next_generation ≡ w.next_generation
      → ((h : ℕ) → h < w.next_generation → share u more k h ≡ share w retains k h)
      → retainers u more k ≡ retainers w retains k
  retainers-eq w u retains more k n e =
      ap (λ (m : ℕ). sum_below m (share u more k)) n
      ∙ sum_below-eq w.next_generation (share u more k) (share w retains k) e

  pub Kept-Owned :
      {w u : World P} {retains : ℕ → List ℕ} {outside : List ℕ} (m : Move w u)
      → Unowned m
      → Owned w retains outside
      → Owned u retains outside
  Kept-Owned {w} {u} {retains} {outside} m q v =
      let s = Move-Kept m q in
      record {
        counted = λ k. ground (
          arith,
          s.leases k,
          v.counted k,
          retainers-eq w u retains retains k s.next (λ h l. ground (arith, s.leases h)),
        );
        unused = λ k l. ground (arith, s.leases k, s.next, v.unused k);
        ended = λ k l z.
            let f = Move-Forward m in
            let o = f.generation k (ground (arith, s.next)) in
            ground (arith, s.leases k, s.next, v.ended k, o.phase);
      }
