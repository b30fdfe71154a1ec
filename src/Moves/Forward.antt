-- ===== src/Moves/Forward.antt =====
-- What no atomic action undoes: phases only move forward, a generation whose last lease is gone
-- stays without, and what a generation was made with stays as it is.
use resourcery.Base.{
  ℕ, ◌≤◌, ◌<◌, ◌≡◌, refl, ◌∙◌, inl, inr, arith, ◌==◌, ==_iff, Bool-cases, subst, Option, update,
}
use resourcery.Lifecycle
use resourcery.Lifecycle.{Phase}
use resourcery.Lifecycle.CancelLoop.{rank}
use resourcery.World.{
  Program, World, Cleanup, Generation, DomainPhase, running, shutting_down, terminated,
}
use resourcery.Domain.{control, task_finished, cancel_locked, cancel_control}
use resourcery.Domain.Frame.{
  generations-task_finished, next-task_finished, generations-cancel_locked, next-cancel_locked,
}
use resourcery.Domain.Register.{registered, register_locked_cases}
use resourcery.Registry.Cases.{opened, detached, claim_vacant_cases, remove_if_same_cases}
use resourcery.Registry.{insert_live, remove_live}
use resourcery.Context.{allocate, set_generation, finish_control}
use resourcery.Moves.{
  Move, registers, closes, shuts, cancels, finishes, leases, releases, reclaims, opens, installs,
  removes, lists, unlists, allocates, supervises, calls_out, Moves, here, next,
}

abbrev pub domain_rank : DomainPhase → ℕ
domain_rank running = 0
domain_rank shutting_down = 1
domain_rank terminated = 2

-- What becomes of one generation.
pub record Older {P : Program} (a b : Generation P) : Type 0 where
  pub phase : rank a.control.phase ≤ rank b.control.phase
  pub token : b.control.cancellation ≡ a.control.cancellation
  pub interface : b.interface ≡ a.interface
  pub on_finish : b.on_finish ≡ a.on_finish
  pub unleased : a.strong ≡ 0 → b.strong ≡ 0

module _ {P : Program} where
  pub record Forward (w u : World P) : Type 0 where
    pub phase : domain_rank w.phase ≤ domain_rank u.phase
    pub next_generation : w.next_generation ≤ u.next_generation
    pub generation : (g : ℕ) → g < w.next_generation → Older (w.generations g) (u.generations g)

  Older-refl : (a : Generation P) → Older a a
  Older-refl a = record {
    phase = omega arith;
    token = refl;
    interface = refl;
    on_finish = refl;
    unleased = λ h. h;
  }

  Older-trans : {a b c : Generation P} → Older a b → Older b c → Older a c
  Older-trans p q = record {
    phase = omega arith;
    token = q.token ∙ p.token;
    interface = q.interface ∙ p.interface;
    on_finish = q.on_finish ∙ p.on_finish;
    unleased = λ h. q.unleased (p.unleased h);
  }

  -- One generation is replaced by an older one.
  Older-update :
      (w : World P) (g : ℕ) (a : Generation P)
      → Older (w.generations g) a
      → (j : ℕ) → Older (w.generations j) (update w.generations g a j)
  Older-update w g a o j = elim (Bool-cases (g == j)) [
    | inl e ↦ rw e (subst (λ i. Older (w.generations i) a) ((==_iff g j).0 e) o)
    | inr e ↦ rw e (Older-refl (w.generations j))
  ]

  Forward-generation :
      (w : World P) (g : ℕ) (a : Generation P)
      → Older (w.generations g) a
      → Forward w (set_generation w g a)
  Forward-generation w g a o = record {
    phase = omega arith;
    next_generation = omega arith;
    generation = λ j h. Older-update w g a o j;
  }

  -- The generations are left alone.
  Forward-same :
      (w u : World P)
      → domain_rank w.phase ≤ domain_rank u.phase
      → u.next_generation ≡ w.next_generation
      → u.generations ≡ w.generations
      → Forward w u
  Forward-same w u p n g = record {
    phase = p;
    next_generation = omega arith;
    generation = λ j h. rw g (Older-refl (w.generations j));
  }

  task_finished-rank :
      (w : World P) (id : ℕ) → domain_rank w.phase ≤ domain_rank (task_finished w id).phase
  unfolding task_finished
  task_finished-rank w id = ground arith

  cancel_locked-rank : (w : World P) → domain_rank w.phase ≤ domain_rank (cancel_locked w).0.phase
  unfolding cancel_locked
  cancel_locked-rank w = ground arith

  registered-Forward :
      (w : World P) (g : ℕ) → (control w g).phase ≡ Lifecycle.starting → Forward w (registered w g)
  registered-Forward w g p = record {
    phase = omega arith;
    next_generation = omega arith;
    generation = λ j h.
        Older-update w g _
          (record {
            phase = ground arith;
            token = refl;
            interface = refl;
            on_finish = refl;
            unleased = λ z. z;
          })
          j;
  }

  cancel_control-Forward : (w : World P) (g : ℕ) → Forward w (cancel_control w g)
  unfolding cancel_control Lifecycle.cancel
  cancel_control-Forward w g = record {
    phase = omega arith;
    next_generation = omega arith;
    generation = λ j h.
        Older-update w g _
          (record {
            phase = ground arith;
            token = ground arith;
            interface = refl;
            on_finish = refl;
            unleased = λ z. z;
          })
          j;
  }

  allocate-Forward :
      (w : World P) (t : ℕ) (f : Option (Cleanup P)) (i : P.Interface)
      → Forward w (allocate w t f i)
  unfolding allocate
  allocate-Forward w t f i = record {
    phase = omega arith;
    next_generation = omega arith;
    generation = λ j h. elim (Bool-cases (w.next_generation == j)) [
      | inl e ↦ absurd (ground arith)
      | inr e ↦ rw e (Older-refl (w.generations j))
    ];
  }

  pub Move-Forward : {w u : World P} → Move w u → Forward w u
  unfolding finish_control Lifecycle.finish insert_live remove_live
  Move-Forward {w} (registers g h e) = rw e (elim (register_locked_cases w g) [
    | inl k ↦ rw k (Forward-same w w (omega arith) refl refl)
    | inr (a, p, k) ↦ rw k (registered-Forward w g p)
  ])
  Move-Forward {w} (closes id e) = rw e (
      Forward-same w _ (task_finished-rank w id) (next-task_finished w id)
        (generations-task_finished w id))
  Move-Forward {w} (shuts e) =
      rw e (
        Forward-same w _ (cancel_locked-rank w) (next-cancel_locked w)
          (generations-cancel_locked w))
  Move-Forward {w} (cancels g h e) = rw e (cancel_control-Forward w g)
  Move-Forward {w} (finishes g h e) = rw e (
      Forward-generation w g _ (record {
        phase = ground arith;
        token = refl;
        interface = refl;
        on_finish = refl;
        unleased = λ z. z;
      }))
  Move-Forward {w} (leases g n p e) = rw e (
      Forward-generation w g _ (record {
        phase = omega arith;
        token = refl;
        interface = refl;
        on_finish = refl;
        unleased = λ z. cc;
      }))
  Move-Forward {w} (releases g n p e) = rw e (
      Forward-generation w g _ (record {
        phase = omega arith;
        token = refl;
        interface = refl;
        on_finish = refl;
        unleased = λ z. absurd (cc);
      }))
  Move-Forward {w} (reclaims s n g a p d e) = rw e (Forward-same w _ (omega arith) refl refl)
  Move-Forward {w} (opens t key p e) = rw e (elim (claim_vacant_cases w t key) [
    | inl (a, k) ↦ rw k (Forward-same w w (omega arith) refl refl)
    | inr (a, k) ↦ rw k (Forward-same w (opened w t key) (omega arith) refl refl)
  ])
  Move-Forward {w} (installs c g e) = rw e (Forward-same w _ (omega arith) refl refl)
  Move-Forward {w} (removes t key s n e) = rw e (elim (remove_if_same_cases w t key s n) [
    | inl k ↦ rw k (Forward-same w w (omega arith) refl refl)
    | inr (a, b, k) ↦ rw k (Forward-same w (detached w t key) (omega arith) refl refl)
  ])
  Move-Forward {w} (lists t id g e) = rw e (Forward-same w _ (omega arith) refl refl)
  Move-Forward {w} (unlists t id e) = rw e (Forward-same w _ (omega arith) refl refl)
  Move-Forward {w} (allocates t f i e) = rw e (allocate-Forward w t f i)
  Move-Forward {w} (supervises g id h e) = rw e (
      Forward-generation w g _ (record {
        phase = omega arith;
        token = refl;
        interface = refl;
        on_finish = refl;
        unleased = λ z. z;
      }))
  Move-Forward {w} (calls_out c h e) = rw e (Forward-same w _ (omega arith) refl refl)

  Forward-trans : {w u v : World P} → Forward w u → Forward u v → Forward w v
  Forward-trans p q = record {
    phase = omega arith;
    next_generation = omega arith;
    generation =
        λ g h. Older-trans (p.generation g h) (q.generation g (omega (arith, p.next_generation)));
  }

  -- Along every run, whatever the interleaving: the domain's phase and the phase of every control
  -- never move back; a generation keeps its token, its interface and its cleanup; and one whose
  -- last lease is gone never has a lease again.
  pub Moves-Forward : {w u : World P} → Moves w u → Forward w u
  Moves-Forward {w} here = Forward-same w w (omega arith) refl refl
  Moves-Forward (next p m) = Forward-trans (Moves-Forward p) (Move-Forward m)
