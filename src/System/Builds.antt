-- ===== src/System/Builds.antt =====
-- src/context.rs, `create` in the race of callers: the registration of what was built keeps the
-- invariant.
use resourcery.Base.{
  ℕ, suc, ◌≡◌, ◌∙◌, sym, ap, true, false, Option, none, some, arith, ◌==◌, ==_refl, ==_iff,
  if◌then◌else◌, update,
}
use resourcery.Lifecycle
use resourcery.World.{Program, Cleanup, World}
use resourcery.Domain.{is_accepting}
use resourcery.Registry.{slot}
use resourcery.Context.{establish}
use resourcery.Context.Snapshot.{acquirable}
use resourcery.System.{Stage, building, created, failing}
use resourcery.System.Invariant.{Inv, cleanup, Acquirable, token}

module _ {P : Program} where
  -- What `create` does once the build is over.
  module _ (w : World P) (t : ℕ) (f : Option (Cleanup P)) (i : P.Interface) where
    abbrev built : World P
    built = (establish w t f i).0

    pub record Grown : Type 0 where
      pub slots : built.slots ≡ w.slots
      pub next_slot : built.next_slot ≡ w.next_slot
      pub next_generation : built.next_generation ≡ suc w.next_generation
      pub lookup : (u : ℕ) (key : P.Key) → slot built u key ≡ slot w u key
      pub cleanups : (g : ℕ) → cleanup built g ≡ (if w.next_generation == g then f else cleanup w g)
      pub live_new : Acquirable built w.next_generation → is_accepting w ≡ true
      pub live_old :
          (g : ℕ) → (w.next_generation == g) ≡ false → Acquirable built g → Acquirable w g

    pub establish-Grown : Grown
    unfolding establish slot acquirable is_accepting Lifecycle.is_active Lifecycle.new
    establish-Grown = record {
      slots = ground (arith, ==_refl w.next_generation);
      next_slot = ground (arith, ==_refl w.next_generation);
      next_generation = ground (arith, ==_refl w.next_generation);
      lookup = λ u key. ground (arith, ==_refl w.next_generation);
      cleanups = λ g. ground (arith, ==_refl w.next_generation);
      live_new = λ a. ground (arith, ==_refl w.next_generation);
      live_old = λ g e a. ground (arith, ==_refl w.next_generation);
    }

  module _ {k : ℕ} {w : World P} {stages : ℕ → Stage P} (v : Inv k w stages) where
    pub creates-Inv :
        (t : ℕ) (iface : P.Interface) → Inv (suc k) (establish w t none iface).0 stages
    creates-Inv t iface =
        let b = establish-Grown w t none iface in
        let u = (establish w t none iface).0 in
        record {
          bounded = λ x. ground (arith, v.bounded x, b.slots);
          known = λ t' key s e. ground (arith, b.lookup t' key, v.known t' key s, b.next_slot);
          fresh = λ g h. ground (arith, b.cleanups g, v.fresh g, b.next_generation);
          gen_slot = λ g c e. ground (arith, b.cleanups g, v.gen_slot g c, b.next_slot);
          gen_number = λ g c e. ground (arith, b.cleanups g, v.gen_number g c, b.slots);
          gen_distinct =
              λ g h c d e f a. ground (arith, b.cleanups g, b.cleanups h, v.gen_distinct g h c d);
          own_slot = λ i c e. ground (arith, v.own_slot i c e, b.next_slot);
          own_state = λ i c e. ap (λ f. f c.slot) b.slots ∙ v.own_state i c e;
          own_distinct = v.own_distinct;
          unused = λ i g c d e f a. ground (arith, b.cleanups g, v.unused i g c d);
          made = λ i g c e. ground (arith, b.cleanups g, v.made i g c e, v.fresh g);
          lost = λ i g c d e f a l. ground (arith, b.cleanups g, b.live_old g, v.lost i g c d);
          held = λ g c a e.
              ground
                (arith, b.cleanups g, b.live_old g, v.held g c, b.lookup c.type_id c.key, b.slots);
          installed = λ s n g e.
              let (c, p, q, r) = v.installed s n g (sym (ap (λ f. f s) b.slots) ∙ e) in
              (c, ground (arith, b.cleanups g, v.fresh g), q, r);
          claimed = λ i c e. b.lookup c.type_id c.key ∙ v.claimed i c e;
        }

    module _ (i : ℕ) (c : Cleanup P) (iface : P.Interface) (s : stages i ≡ building c) where
      abbrev onward : Stage P
      onward = if is_accepting w then created c w.next_generation else failing c

      mine : token (stages i) ≡ some c
      mine = ap token s

      token-onward : token onward ≡ some c
      token-onward = ground arith

      pub establishes-Inv :
          Inv (suc k) (establish w c.type_id (some c) iface).0 (update stages i onward)
      establishes-Inv =
          let b = establish-Grown w c.type_id (some c) iface in
          record {
            bounded = λ x. ground (arith, v.bounded x, b.slots);
            known = λ t' key x e. ground (arith, b.lookup t' key, v.known t' key x, b.next_slot);
            fresh = λ g h. ground (arith, b.cleanups g, v.fresh g, b.next_generation);
            gen_slot = λ g d e.
                ground (arith, b.cleanups g, v.gen_slot g d, b.next_slot, v.own_slot i c mine);
            gen_number = λ g d e.
                ground (arith, b.cleanups g, v.gen_number g d, b.slots, v.own_state i c mine);
            gen_distinct = λ g h d d' e f a. ground (
              arith,
              b.cleanups g,
              b.cleanups h,
              v.gen_distinct g h d d',
              v.unused i g c d s,
              v.unused i h c d' s,
              ==_iff w.next_generation g,
              ==_iff w.next_generation h,
            );
            own_slot = λ j d e. ground (arith, v.own_slot j d, v.own_slot i c mine, b.next_slot);
            own_state = λ j d e. ground (arith, v.own_state j d, v.own_state i c mine, b.slots);
            own_distinct = λ j l d d' e f a.
                ground
                  (arith, v.own_distinct j l d d', v.own_distinct i l c d', v.own_distinct j i d c);
            unused = λ j g d d' e f.
                ground (arith, b.cleanups g, v.unused j g d d', v.own_distinct i j c d mine);
            made = λ j g d e. ground (arith, b.cleanups g, v.made j g d, v.fresh g);
            lost = λ j g d d' e f a l. ground (
              arith,
              b.cleanups g,
              b.live_old g,
              b.live_new,
              v.lost j g d d',
              v.unused i g c d' s,
              v.own_distinct i j c d mine,
            );
            held = λ g d a e. ground (
              arith,
              b.cleanups g,
              b.live_old g,
              v.held g d,
              b.lookup d.type_id d.key,
              b.slots,
              v.claimed i c s,
              v.own_state i c mine,
            );
            installed = λ x n g e.
                let (d, p, q, r) = v.installed x n g (sym (ap (λ f. f x) b.slots) ∙ e) in
                (d, ground (arith, b.cleanups g, v.fresh g), q, r);
            claimed = λ j d e. ground (arith, v.claimed j d, b.lookup d.type_id d.key);
          }
