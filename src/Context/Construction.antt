-- ===== src/Context/Construction.antt =====
-- src/context.rs, `finish_canonical_creation`: every way in which a construction ends.
use resourcery.Base.{ℕ, ◌≡◌, refl, true, List, none, some, if◌then◌else◌, ap, ◌∷◌}
use resourcery.Lifecycle
use resourcery.World.{Program, Cleanup, World, active, notify_slot, Call, start}
use resourcery.Domain.{control, is_accepting}
use resourcery.Reference.{strong, drop_ref}
use resourcery.Registry.{slot}
use resourcery.Registry.Ownership.{Constructing}
use resourcery.Context.Create.{
  shutting_down, construction_panicked, Result, ok, err, Built, panics, spec, create, establish,
  send_start,
}
use resourcery.Context.Acquire.{Guard, Pauses}

module _ {P : Program} (c : Cleanup P) where
  abbrev pub armed_guard : Guard P
  armed_guard = record { target = c; armed = true }

  abbrev pub UnderConstruction : World P → Type 0
  UnderConstruction w = Constructing w c.type_id c.key c.slot c.generation

  -- The identity is free again, and those who wait for its slot were told.
  pub record Vacated (w : World P) : Type 0 where
    pub vacant : slot w c.type_id c.key ≡ none
    pub told : (calls : List (Call P.Error)) × (w.calls ≡ notify_slot c.slot ∷ calls)

  -- The identity holds the generation, which is as the others left it; those who wait were told, and
  -- the task was started after that.
  pub record Installed (u w : World P) (g : ℕ) : Type 0 where
    pub slot_of : slot w c.type_id c.key ≡ some c.slot
    pub state : w.slots c.slot ≡ active c.generation g
    pub accepting : is_accepting w ≡ true
    pub generations : w.generations ≡ u.generations
    pub told : w.calls ≡ start g ∷ notify_slot c.slot ∷ u.calls

  -- The identity is free, the task was started, and the caller's lease is given up.
  pub record Withdrawn (u w : World P) (g : ℕ) : Type 0 where
    pub vacated : Vacated w
    pub generations : w.generations ≡ (drop_ref (send_start u g) g).generations

  -- `create` has made a generation: it is active, with its interface, the cleanup for this slot and
  -- one lease, the caller's.
  pub record Made (w : World P) (g : ℕ) (i : P.Interface) : Type 0 where
    pub phase : (control w g).phase ≡ Lifecycle.active
    pub leased : strong w g ≡ 1
    pub interface : (w.generations g).interface ≡ some i
    pub on_finish : (w.generations g).on_finish ≡ some c

  module _ (w : World P) (others : Pauses P) where
    -- What `create` leaves, and what the second test of the domain meets.
    abbrev pub created : P.Interface → World P
    created i = (establish (others.building w) c.type_id (some c) i).0

    abbrev pub tested : P.Interface → World P
    tested i = others.registered (created i)

    -- Nobody else touches the slot while it is under construction.
    abbrev pub Undisturbed : Built P.Interface → Type 0
    Undisturbed panics = UnderConstruction (others.building w)
    Undisturbed (spec i) =
        UnderConstruction (others.building w)
        × (UnderConstruction (created i) → UnderConstruction (tested i))

    abbrev pub Ended : Built P.Interface → World P × Result ℕ → Type 0
    Ended panics (u, r) = (r ≡ err construction_panicked) × Vacated u
    Ended (spec i) (u, r) =
        let g = (others.building w).next_generation in
        if is_accepting (others.building w)
        then (Made (created i) g i
            × (if is_accepting (tested i)
                then (r ≡ ok g) × Installed (tested i) u g
                else (r ≡ err shutting_down) × Withdrawn (tested i) u g))
        else (r ≡ err shutting_down) × Vacated u

    pub create-eq-panics :
        is_accepting w ≡ true
        → create w c.type_id (some c) others.building panics
          ≡ (others.building w, err construction_panicked)
    unfolding create
    create-eq-panics a = rw (a, create) refl

    pub create-eq-spec :
        (i : P.Interface)
        → is_accepting w ≡ true
        → create w c.type_id (some c) others.building (spec i)
          ≡ establish (others.building w) c.type_id (some c) i
    unfolding create
    create-eq-spec i a = rw (a, create) refl

    pub pair-eta : (r : World P × Result ℕ) (x : Result ℕ) → r.1 ≡ x → r ≡ (r.0, x)
    pair-eta (u, y) x e = ap (λ z. (u, z)) e
