-- ===== src/System/Claims.antt =====
-- src/domain.rs, `claim`: a caller that becomes the owner of an identity keeps the invariant.
use resourcery.Base.{
  ℕ, suc, ◌+◌, ◌%◌, ◌^◌, ◌<◌, ◌≡◌, ◌∙◌, inl, inr, false, none, some, arith, ◌==◌, ==_iff,
  Bool-cases, update,
}
use resourcery.Lifecycle
use resourcery.World.{Program, Cleanup, World, starting, active}
use resourcery.Domain.{is_accepting}
use resourcery.Registry.{slot, set_slot, generation_of}
use resourcery.Registry.Cases.{opened, slot-opened}
use resourcery.Context.{cleanup_of}
use resourcery.Context.Snapshot.{acquirable}
use resourcery.Moves.{Dead}
use resourcery.System.{Stage, idle, building}
use resourcery.System.Invariant.{Inv, cleanup, Acquirable, Alike, token}

module _ {P : Program} where
  Dead-Acquirable : (w : World P) (g : ℕ) → Dead w g → ¬ Acquirable w g
  unfolding acquirable
  Dead-Acquirable w g d = λ a. ground arith

  module _ {k : ℕ} {w : World P} {stages : ℕ → Stage P} (v : Inv k w stages) where
    -- A caller that owned nothing.
    idle-ne :
        (i j : ℕ) (c : Cleanup P) → stages i ≡ idle → token (stages j) ≡ some c → (i == j) ≡ false
    idle-ne i j c e f = elim (Bool-cases (i == j)) [
      | inl q ↦ absurd (cc ((==_iff i j).0 q, e, f))
      | inr q ↦ q
    ]

    module _ (i t : ℕ) (key : P.Key) (s n g : ℕ) (bound : suc (suc k) < 2 ^ 64)
        (free : stages i ≡ idle) (look : slot w t key ≡ some s) (state : w.slots s ≡ active n g)
        (dead : Dead w g) where
      abbrev mine : Cleanup P
      mine = cleanup_of t key s ((n + 1) % 2 ^ 64)

      number : (n + 1) % 2 ^ 64 ≡ n + 1
      number = ground (arith, v.bounded s)

      -- A generation that can be acquired is not the one of this slot.
      other_slot :
          (h : ℕ) (c : Cleanup P) → Acquirable w h → cleanup w h ≡ some c → (s == c.slot) ≡ false
      other_slot h c a e = elim (Bool-cases (s == c.slot)) [
        | inl q ↦
            let (c0, p0, s0, n0) = v.installed s n g state in
            let same_slot : s ≡ c.slot = (==_iff s c.slot).0 q in
            let number_of : generation_of (w.slots c.slot) ≡ c.generation = (v.held h c a e).1 in
            let alike : Alike c0 c = (s0 ∙ same_slot, ground arith) in
            absurd (Dead-Acquirable w g dead (rw (v.gen_distinct g h c0 c p0 e alike) a))
        | inr q ↦ q
      ]

      pub takes_over-Inv :
          Inv (suc k) (set_slot w s (starting ((n + 1) % 2 ^ 64))) (update stages i (building mine))
      unfolding slot acquirable is_accepting Lifecycle.is_active
      takes_over-Inv = rw number (record {
        bounded = λ x. ground (arith, v.bounded x, v.bounded s);
        known = v.known;
        fresh = v.fresh;
        gen_slot = v.gen_slot;
        gen_number = λ h c e. ground (arith, v.gen_number h c e);
        gen_distinct = v.gen_distinct;
        own_slot = λ j c e. ground (arith, v.own_slot j c, v.known t key s look);
        own_state = λ j c e. ground (arith, v.own_state j c);
        own_distinct = λ j l c d e f a.
            ground (arith, v.own_distinct j l c d, v.own_state j c, v.own_state l d);
        unused = λ j h c d e f. ground (arith, v.unused j h c d, v.gen_number h d f);
        made = λ j h c e. ground (arith, v.made j h c);
        lost = λ j h c d e f a. ground (arith, v.lost j h c d);
        held = λ h c a e. let (p, q) = v.held h c a e in (p, rw (other_slot h c a e) q);
        installed = λ x m h e. elim (Bool-cases (s == x)) [
          | inl q ↦ absurd (ground arith)
          | inr q ↦ v.installed x m h (rw q at e)
        ];
        claimed = λ j c e. ground (arith, v.claimed j c);
      })

    module _ (i t : ℕ) (key : P.Key) (free : stages i ≡ idle) (vacant : slot w t key ≡ none) where
      pub enters-Inv :
          Inv (suc k) (opened w t key) (update stages i (building (cleanup_of t key w.next_slot 1)))
      unfolding slot acquirable is_accepting Lifecycle.is_active
      enters-Inv = record {
        bounded = λ x. ground (arith, v.bounded x);
        known = λ u key' x e. ground (arith, v.known u key' x, slot-opened w t key u key');
        fresh = v.fresh;
        gen_slot = λ h c e. ground (arith, v.gen_slot h c e);
        gen_number = λ h c e. ground (arith, v.gen_number h c e, v.gen_slot h c e);
        gen_distinct = v.gen_distinct;
        own_slot = λ j c e. ground (arith, v.own_slot j c);
        own_state = λ j c e. ground (arith, v.own_state j c, v.own_slot j c);
        own_distinct =
            λ j l c d e f a. ground (arith, v.own_distinct j l c d, v.own_slot j c, v.own_slot l d);
        unused = λ j h c d e f. ground (arith, v.unused j h c d, v.gen_slot h d f);
        made = λ j h c e. ground (arith, v.made j h c);
        lost = λ j h c d e f a. ground (arith, v.lost j h c d);
        held = λ h c a e.
            ground (arith, v.held h c a e, v.gen_slot h c e, slot-opened w t key c.type_id c.key);
        installed = λ x m h e. elim (Bool-cases (w.next_slot == x)) [
          | inl q ↦ absurd (ground arith)
          | inr q ↦ v.installed x m h (rw q at e)
        ];
        claimed = λ j c e. ground (arith, v.claimed j c, slot-opened w t key c.type_id c.key);
      }
