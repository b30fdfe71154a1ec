-- ===== src/System/Endings.antt =====
-- src/context.rs: the steps from a build to the end of a construction, and those of supervisors,
-- keep the invariant.
use resourcery.Base.{
  ◌∷◌, ℕ, suc, ◌≡◌, refl, sym, ap, inl, inr, false, none, some, arith, ◌==◌, ==_iff, Bool-cases,
  update,
}
use resourcery.Lifecycle
use resourcery.World.{Program, Cleanup, World, active, notify_slot}
use resourcery.Domain.{control, is_accepting}
use resourcery.Registry.{slot, set_slot, remove_if_same, has_generation}
use resourcery.Registry.Cases.{slot-detached, remove_if_same_cases}
use resourcery.Context.Snapshot.{acquirable}
use resourcery.System.{Stage, idle, building, created, failing, telling, waiting, wake}
use resourcery.System.Steps.{Benign-Inv}
use resourcery.System.Invariant.{Inv, cleanup, Acquirable, Alike, token}

module _ {P : Program} where
  module _ {k : ℕ} {w : World P} {stages : ℕ → Stage P} (v : Inv k w stages) (i : ℕ)
      (c : Cleanup P) where
    -- The owner gives its construction up.
    fails-Inv :
        token (stages i) ≡ some c
        → ((g : ℕ) (d : Cleanup P) → cleanup w g ≡ some d → Alike c d → ¬ Acquirable w g)
        → Inv (suc k) w (update stages i (failing c))
    fails-Inv mine gone = record {
      bounded = λ x. ground (arith, v.bounded x);
      known = v.known;
      fresh = v.fresh;
      gen_slot = v.gen_slot;
      gen_number = v.gen_number;
      gen_distinct = v.gen_distinct;
      own_slot = λ j d e. ground (arith, v.own_slot j d, v.own_slot i c mine);
      own_state = λ j d e. ground (arith, v.own_state j d, v.own_state i c mine);
      own_distinct = λ j l d d' e f a.
          ground (arith, v.own_distinct j l d d', v.own_distinct i l c d', v.own_distinct j i d c);
      unused = λ j h d d' e f. ground (arith, v.unused j h d d');
      made = λ j h d e. ground (arith, v.made j h d);
      lost = λ j h d d' e f a. ground (arith, v.lost j h d d', gone h d');
      held = v.held;
      installed = v.installed;
      claimed = λ j d e. ground (arith, v.claimed j d);
    }

    pub abandons-Inv : stages i ≡ building c → Inv (suc k) w (update stages i (failing c))
    abandons-Inv e = fails-Inv (ap token e) (λ g d f a. absurd (v.unused i g c d e f a))

    pub refuses-Inv :
        (g : ℕ)
        → stages i ≡ created c g
        → is_accepting w ≡ false
        → Inv (suc k) w (update stages i (failing c))
    unfolding acquirable
    refuses-Inv g e closed = fails-Inv (ap token e) (λ h d f a live. ground arith)

    pub publishes-Inv :
        (g : ℕ)
        → stages i ≡ created c g
        → Inv (suc k) (set_slot w c.slot (active c.generation g)) (update stages i (telling c.slot))
    unfolding slot acquirable is_accepting Lifecycle.is_active
    publishes-Inv g s =
        let mine : token (stages i) ≡ some c = ap token s in
        let state = v.own_state i c mine in
        record {
          bounded = λ x. ground (arith, v.bounded x, v.bounded c.slot, state);
          known = v.known;
          fresh = v.fresh;
          gen_slot = v.gen_slot;
          gen_number = λ h d e. ground (arith, v.gen_number h d e, state);
          gen_distinct = v.gen_distinct;
          own_slot = λ j d e. ground (arith, v.own_slot j d);
          own_state = λ j d e. ground (arith, v.own_state j d, v.own_distinct i j c d mine);
          own_distinct = λ j l d d' e f a. ground (arith, v.own_distinct j l d d');
          unused = λ j h d d' e f. ground (arith, v.unused j h d d');
          made = λ j h d e. ground (arith, v.made j h d);
          lost = λ j h d d' e f a. ground (arith, v.lost j h d d');
          held = λ h d a e. ground (arith, v.held h d a e, state);
          installed = λ x m h e. elim (Bool-cases (c.slot == x)) [
            | inl q ↦ (c, ground (arith, v.made i g c s), (==_iff c.slot x).0 q, ground arith)
            | inr q ↦ v.installed x m h (rw q at e)
          ];
          claimed = λ j d e. ground (arith, v.claimed j d);
        }

  -- The cleanup of a construction keeps the invariant where nobody else needs the identity.
  frees-Inv :
      {k : ℕ} {w : World P} {stages : ℕ → Stage P}
      → Inv k w stages
      → (c : Cleanup P) → ((j : ℕ) (d : Cleanup P) → stages j ≡ building d → ¬ Alike c d)
      → ((g : ℕ) (d : Cleanup P) → Acquirable w g → cleanup w g ≡ some d → ¬ Alike c d)
      → Inv k (remove_if_same w c.type_id c.key c.slot c.generation) stages
  unfolding has_generation acquirable is_accepting Lifecycle.is_active
  frees-Inv {k} {w} v c no_builder no_holder =
      elim (remove_if_same_cases w c.type_id c.key c.slot c.generation) [
        | inl q ↦ rw q v
        | inr (look, number, q) ↦ rw q (record {
          bounded = v.bounded;
          known =
              λ t key s e. ground (arith, v.known t key s, slot-detached w c.type_id c.key t key);
          fresh = v.fresh;
          gen_slot = v.gen_slot;
          gen_number = v.gen_number;
          gen_distinct = v.gen_distinct;
          own_slot = v.own_slot;
          own_state = v.own_state;
          own_distinct = v.own_distinct;
          unused = v.unused;
          made = v.made;
          lost = v.lost;
          held = λ g d a e. ground (
            arith,
            v.held g d a e,
            no_holder g d a e,
            slot-detached w c.type_id c.key d.type_id d.key,
          );
          installed = v.installed;
          claimed = λ j d e. ground (
            arith,
            v.claimed j d e,
            v.own_state j d,
            no_builder j d e,
            slot-detached w c.type_id c.key d.type_id d.key,
          );
        })
      ]

  module _ {k : ℕ} {w : World P} {stages : ℕ → Stage P} (v : Inv k w stages) where
    -- A caller that owns no construction afterwards.
    rests-Inv :
        (i : ℕ) (stage : Stage P) → token stage ≡ none → Inv (suc k) w (update stages i stage)
    rests-Inv i stage n = record {
      bounded = λ x. ground (arith, v.bounded x);
      known = v.known;
      fresh = v.fresh;
      gen_slot = v.gen_slot;
      gen_number = v.gen_number;
      gen_distinct = v.gen_distinct;
      own_slot = λ j d e. ground (arith, v.own_slot j d);
      own_state = λ j d e. ground (arith, v.own_state j d);
      own_distinct = λ j l d d' e f a. ground (arith, v.own_distinct j l d d');
      unused = λ j h d d' e f. ground (arith, v.unused j h d d');
      made = λ j h d e. ground (arith, v.made j h d);
      lost = λ j h d d' e f a. ground (arith, v.lost j h d d');
      held = v.held;
      installed = v.installed;
      claimed = λ j d e. ground (arith, v.claimed j d);
    }

    pub waits-Inv : (i s : ℕ) → Inv (suc k) w (update stages i (waiting s))
    waits-Inv i s = rests-Inv i (waiting s) refl

    pub leaves-Inv : (i : ℕ) → Inv (suc k) w (update stages i idle)
    leaves-Inv i = rests-Inv i idle refl

    pub wakes-Inv : (s : ℕ) → Inv k w (λ j. wake s (stages j))
    wakes-Inv s = record {
      bounded = v.bounded;
      known = v.known;
      fresh = v.fresh;
      gen_slot = v.gen_slot;
      gen_number = v.gen_number;
      gen_distinct = v.gen_distinct;
      own_slot = λ j d e. ground (arith, v.own_slot j d);
      own_state = λ j d e. ground (arith, v.own_state j d);
      own_distinct = λ j l d d' e f a. ground (arith, v.own_distinct j l d d');
      unused = λ j h d d' e f. ground (arith, v.unused j h d d');
      made = λ j h d e. ground (arith, v.made j h d);
      lost = λ j h d d' e f a. ground (arith, v.lost j h d d');
      held = v.held;
      installed = v.installed;
      claimed = λ j d e. ground (arith, v.claimed j d);
    }

    pub vacates-Inv :
        (i : ℕ) (c : Cleanup P)
        → stages i ≡ failing c
        → Inv
            (suc k)
            (remove_if_same w c.type_id c.key c.slot c.generation)
            (update stages i (telling c.slot))
    vacates-Inv i c s =
        frees-Inv (rests-Inv i (telling c.slot) refl) c
          (λ j d e a. ground (arith, v.own_distinct i j c d (ap token s), a.0))
          (λ g d live e a. ground (arith, v.lost i g c d s e a, live))

    later-Inv : Inv (suc k) w stages
    later-Inv =
        Benign-Inv (omega arith)
          (record {
            slots = λ s. refl;
            lookup = λ t key. refl;
            next_slot = refl;
            next_generation = refl;
            cleanups = λ j. refl;
            live = λ j a. a;
          })
          v

    pub cleans-Inv :
        (g : ℕ) (c : Cleanup P)
        → cleanup w g ≡ some c
        → (control w g).phase ≡ Lifecycle.finished
        → Inv (suc k) (remove_if_same w c.type_id c.key c.slot c.generation) stages
    unfolding acquirable Lifecycle.is_active
    cleans-Inv g c s over =
        frees-Inv later-Inv c (λ j d e a. v.unused j g d c e s (sym a.0, sym a.1))
          (λ h d live e a. ground (arith, v.gen_distinct g h c d s e a))

  pub tells-Inv :
      {k : ℕ} {w : World P} {stages : ℕ → Stage P}
      → Inv k w stages
      → (i s : ℕ)
      → Inv
          (suc k)
          (record w { calls = notify_slot s ∷ w.calls })
          (λ j. wake s (update stages i idle j))
  unfolding acquirable slot is_accepting Lifecycle.is_active
  tells-Inv v i s =
      wakes-Inv
        (rests-Inv
          (Benign-Inv (omega arith)
            (record {
              slots = λ s. refl;
              lookup = λ t key. refl;
              next_slot = refl;
              next_generation = refl;
              cleanups = λ j. refl;
              live = λ j a. a;
            })
            v)
          i idle refl)
        s
