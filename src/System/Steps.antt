-- ===== src/System/Steps.antt =====
-- Every step of racing callers keeps the invariant: the steps that concern no identity.
use resourcery.Base.{◌≤◌, ℕ, ◌≡◌, refl, ◌∙◌, sym, ap, arith}
use resourcery.Lifecycle
use resourcery.World.{Program, World}
use resourcery.Domain.{is_accepting, cancel_control, task_finished, cancel_locked}
use resourcery.Registry.{slot, generation_of, insert_live, remove_live}
use resourcery.Context.{finish_control}
use resourcery.Context.Snapshot.{acquirable}
use resourcery.Moves.{
  Move, registers, closes, shuts, cancels, finishes, leases, releases, reclaims, opens, installs,
  removes, lists, unlists, allocates, supervises, calls_out,
}
use resourcery.System.{Stage, Quiet}
use resourcery.System.Invariant.{Inv, cleanup, Acquirable}

module _ {P : Program} where
  -- The step leaves slots, identities and cleanups alone, and makes nothing acquirable.
  pub record Benign (w u : World P) : Type 0 where
    pub slots : (s : ℕ) → u.slots s ≡ w.slots s
    pub lookup : (t : ℕ) (key : P.Key) → slot u t key ≡ slot w t key
    pub next_slot : u.next_slot ≡ w.next_slot
    pub next_generation : u.next_generation ≡ w.next_generation
    pub cleanups : (g : ℕ) → cleanup u g ≡ cleanup w g
    pub live : (g : ℕ) → Acquirable u g → Acquirable w g

  pub Benign-Inv :
      {k m : ℕ} {w u : World P} {stages : ℕ → Stage P}
      → k ≤ m
      → Benign w u
      → Inv k w stages
      → Inv m u stages
  Benign-Inv {k} {m} {w} {u} {stages} le b v = record {
    bounded = λ s. ground (arith, b.slots s, v.bounded s);
    known = λ t key s e. ground (arith, b.lookup t key, v.known t key s, b.next_slot);
    fresh = λ g h. ground (arith, b.cleanups g, v.fresh g, b.next_generation);
    gen_slot = λ g c e. ground (arith, b.cleanups g, v.gen_slot g c, b.next_slot);
    gen_number = λ g c e. ground (arith, b.cleanups g, v.gen_number g c, b.slots c.slot);
    gen_distinct =
        λ g h c d e f a. v.gen_distinct g h c d (sym (b.cleanups g) ∙ e) (sym (b.cleanups h) ∙ f) a;
    own_slot = λ i c e. ground (arith, v.own_slot i c e, b.next_slot);
    own_state = λ i c e. b.slots c.slot ∙ v.own_state i c e;
    own_distinct = v.own_distinct;
    unused = λ i g c d e f a. v.unused i g c d e (sym (b.cleanups g) ∙ f) a;
    made = λ i g c e. b.cleanups g ∙ v.made i g c e;
    lost = λ i g c d e f a l. v.lost i g c d e (sym (b.cleanups g) ∙ f) a (b.live g l);
    held = λ g c a e.
        let (p, q) = v.held g c (b.live g a) (sym (b.cleanups g) ∙ e) in
        (b.lookup c.type_id c.key ∙ p, ap generation_of (b.slots c.slot) ∙ q);
    installed = λ s n g e.
        let (c, p, q, r) = v.installed s n g (sym (b.slots s) ∙ e) in (c, b.cleanups g ∙ p, q, r);
    claimed = λ i c e. b.lookup c.type_id c.key ∙ v.claimed i c e;
  }

  pub Move-Benign : {w u : World P} (m : Move w u) → Quiet m → Benign w u
  unfolding acquirable slot is_accepting finish_control Lifecycle.finish Lifecycle.is_active
      insert_live remove_live cancel_control Lifecycle.cancel task_finished cancel_locked
  Move-Benign {w} (cancels g h e) q = rw e (record {
    slots = λ s. refl;
    lookup = λ t key. refl;
    next_slot = refl;
    next_generation = refl;
    cleanups = λ j. ground arith;
    live = λ j. ground arith;
  })
  Move-Benign {w} (finishes g h e) q = rw e (record {
    slots = λ s. refl;
    lookup = λ t key. refl;
    next_slot = refl;
    next_generation = refl;
    cleanups = λ j. ground arith;
    live = λ j. ground arith;
  })
  Move-Benign {w} (leases g n p e) q = rw e (record {
    slots = λ s. refl;
    lookup = λ t key. refl;
    next_slot = refl;
    next_generation = refl;
    cleanups = λ j. ground arith;
    live = λ j. ground arith;
  })
  Move-Benign {w} (releases g n p e) q = rw e (record {
    slots = λ s. refl;
    lookup = λ t key. refl;
    next_slot = refl;
    next_generation = refl;
    cleanups = λ j. ground arith;
    live = λ j. ground arith;
  })
  Move-Benign {w} (closes id e) q = rw e (record {
    slots = λ s. ground arith;
    lookup = λ t key. ground arith;
    next_slot = ground arith;
    next_generation = ground arith;
    cleanups = λ j. ground arith;
    live = λ j. ground arith;
  })
  Move-Benign {w} (shuts e) q = rw e (record {
    slots = λ s. ground arith;
    lookup = λ t key. ground arith;
    next_slot = ground arith;
    next_generation = ground arith;
    cleanups = λ j. ground arith;
    live = λ j. ground arith;
  })
  Move-Benign {w} (lists t id g e) q = rw e (record {
    slots = λ s. refl;
    lookup = λ t key. ground arith;
    next_slot = refl;
    next_generation = refl;
    cleanups = λ j. refl;
    live = λ j a. a;
  })
  Move-Benign {w} (unlists t id e) q = rw e (record {
    slots = λ s. refl;
    lookup = λ t key. ground arith;
    next_slot = refl;
    next_generation = refl;
    cleanups = λ j. refl;
    live = λ j a. a;
  })
  Move-Benign {w} (calls_out c h e) q = rw e (record {
    slots = λ s. refl;
    lookup = λ t key. refl;
    next_slot = refl;
    next_generation = refl;
    cleanups = λ j. refl;
    live = λ j a. a;
  })
  Move-Benign (registers g h e) q = absurd q
  Move-Benign (reclaims s n g a p d e) q = absurd q
  Move-Benign (opens t key p e) q = absurd q
  Move-Benign (installs c g e) q = absurd q
  Move-Benign (removes t key s n e) q = absurd q
  Move-Benign (allocates t f i e) q = absurd q
  Move-Benign (supervises g id h e) q = absurd q
