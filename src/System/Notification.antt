-- ===== src/System/Notification.antt =====
-- src/context.rs and src/domain.rs: every reachable state has somebody to notify each waiter.
use resourcery.Base.{◌∷◌, ◌+◌, ◌%◌, ℕ, suc, ◌^◌, ◌<◌, refl, ◌∙◌, sym, ap, none, some, arith}
use resourcery.World.{notify_slot, new_world, Program}
use resourcery.Registry.{slot}
use resourcery.System.{
  idle, failing, State, Step, quiet, takes_over, enters, establishes, abandons, publishes, refuses,
  vacates, tells, waits, leaves, cleans, creates, Reach, begin, after,
}
use resourcery.System.Invariant.{Inv}
use resourcery.System.Steps.{Move-Benign}
use resourcery.System.Builds.{establish-Grown}
use resourcery.System.Exclusion.{Reach-Inv}
use resourcery.System.Waiting.{Heard, Heard-world, Heard-stage, slot-removed, slots-removed}
use resourcery.System.Suspensions.{
  enters-Heard, leaves-Heard, publishes-Heard, takes_over-Heard, tells-Heard, vacates-Heard,
  waits-Heard,
}

module _ {P : Program} where
  Step-Heard :
      {k : ℕ} {a b : State P}
      → Inv k a.world a.stages
      → Step a b
      → Heard a.world a.stages
      → Heard b.world b.stages
  unfolding slot
  Step-Heard {k} {a} v (quiet m q e) h =
      let m' = Move-Benign m q in
      rw e (Heard-world (λ t key s f. sym (m'.lookup t key) ∙ f) m'.slots h)
  Step-Heard {k} {a} v (takes_over i t key s n g free look state accepting dead e) h =
      rw e (takes_over-Heard v h i t key s ((n + 1) % 2 ^ 64) free look)
  Step-Heard {k} {a} v (enters i t key free vacant accepting e) h =
      rw e (enters-Heard v h i t key free vacant)
  Step-Heard {k} {a} v (establishes i c iface s e) h =
      let grown = establish-Grown a.world c.type_id (some c) iface in
      rw e (
        Heard-world (λ t key x f. sym (grown.lookup t key) ∙ f) (λ x. ap (λ f. f x) grown.slots)
          (Heard-stage h i _ (ground arith) (ground arith) (λ x. ground arith)))
  Step-Heard {k} {a} v (abandons i c s e) h =
      rw e (Heard-stage h i (failing c) (ground arith) (ground arith) (λ x. cc))
  Step-Heard {k} {a} v (publishes i c g s e) h = rw e (publishes-Heard v h i c g s)
  Step-Heard {k} {a} v (refuses i c g s closed e) h =
      rw e (Heard-stage h i (failing c) (ground arith) (ground arith) (λ x. cc))
  Step-Heard {k} {a} v (vacates i c s e) h = rw e (vacates-Heard v h i c s)
  Step-Heard {k} {a} v (tells i s told e) h = rw e (
      Heard-world {w = a.world} {u = record a.world { calls = notify_slot s ∷ a.world.calls }}
        (λ t key x f. f) (λ x. refl) (tells-Heard v h i s told))
  Step-Heard {k} {a} v (waits i t key s n free look state e) h =
      rw e (waits-Heard v h i t key s n free look state)
  Step-Heard {k} {a} v (leaves i s told e) h = rw e (leaves-Heard v h i s told)
  Step-Heard {k} {a} v (cleans g c s over e) h =
      rw e (Heard-world (slot-removed a.world c) (slots-removed a.world c) h)
  Step-Heard {k} {a} v (creates t iface e) h =
      let grown = establish-Grown a.world t none iface in
      rw e
        (Heard-world (λ u key x f. sym (grown.lookup u key) ∙ f) (λ x. ap (λ f. f x) grown.slots) h)

  Heard-initial : Heard (new_world {P = P}) (λ i. idle)
  unfolding new_world slot
  Heard-initial = record {
    home = λ t u key key' s e f. absurd (cc (P.entries.get-empty key));
    own_home = λ i t key c e f. cc;
    owned = λ t key s n e f. absurd (cc (P.entries.get-empty key));
    heard = λ i s e. cc;
  }

  pub Reach-Heard : {k : ℕ} {a : State P} → Reach k a → suc k < 2 ^ 64 → Heard a.world a.stages
  Reach-Heard begin b = Heard-initial
  Reach-Heard (after {k} r s) b =
      Step-Heard (Reach-Inv r (omega arith)) s (Reach-Heard r (omega arith))
