-- ===== src/System/Waiting.antt =====
-- src/context.rs and src/domain.rs: somebody is about to notify each caller that waits for a slot.
use resourcery.Base.{
  ℕ, ◌≡◌, refl, ◌∙◌, sym, inl, inr, Option, none, some, arith, ◌==◌, Bool-cases, update,
}
use resourcery.World.{Program, Cleanup, World, starting}
use resourcery.Registry.{slot, remove_if_same}
use resourcery.Registry.Cases.{detached, slot-detached, remove_if_same_cases}
use resourcery.System.{Stage, idle, building, created, failing, telling, waiting}
use resourcery.System.Invariant.{token}

module _ {P : Program} where
  -- The slot whose waiters a caller is going to notify.
  abbrev pub owes : Stage P → Option ℕ
  owes idle = none
  owes (building c) = some c.slot
  owes (created c g) = some c.slot
  owes (failing c) = some c.slot
  owes (telling s) = some s
  owes (waiting s) = none

  pub record Heard (w : World P) (stages : ℕ → Stage P) : Type 0 where
    -- two identities have two slots
    pub home :
        (t u : ℕ) (key key' : P.Key) (s : ℕ)
        → slot w t key ≡ some s
        → slot w u key' ≡ some s
        → (t ≡ u) × (key ≡ key')
    pub own_home :
        (i t : ℕ) (key : P.Key) (c : Cleanup P)
        → token (stages i) ≡ some c
        → slot w t key ≡ some c.slot
        → (t ≡ c.type_id) × (key ≡ c.key)
    -- the slot of an identity that is under construction has an owner
    pub owned :
        (t : ℕ) (key : P.Key) (s n : ℕ)
        → slot w t key ≡ some s
        → w.slots s ≡ starting n
        → (i : ℕ) × (c : Cleanup P) × (token (stages i) ≡ some c) × (c.slot ≡ s)
    -- who waits is going to be notified
    pub heard : (i s : ℕ) → stages i ≡ waiting s → (j : ℕ) × (owes (stages j) ≡ some s)

  -- Identities are removed at most, and the slots left alone.
  pub Heard-world :
      {w u : World P} {stages : ℕ → Stage P}
      → ((t : ℕ) (key : P.Key) (s : ℕ) → slot u t key ≡ some s → slot w t key ≡ some s)
      → ((s : ℕ) → u.slots s ≡ w.slots s)
      → Heard w stages
      → Heard u stages
  Heard-world less slots h = record {
    home = λ t u key key' s e f. h.home t u key key' s (less t key s e) (less u key' s f);
    own_home = λ i t key c e f. h.own_home i t key c e (less t key c.slot f);
    owned = λ t key s n e f. h.owned t key s n (less t key s e) (sym (slots s) ∙ f);
    heard = h.heard;
  }

  pub slot-removed :
      (w : World P) (c : Cleanup P) (t : ℕ) (key : P.Key) (s : ℕ)
      → slot (remove_if_same w c.type_id c.key c.slot c.generation) t key ≡ some s
      → slot w t key ≡ some s
  slot-removed w c t key s e = elim (remove_if_same_cases w c.type_id c.key c.slot c.generation) [
    | inl q ↦ rw q at e
    | inr (look, number, q) ↦
        let e' : slot (detached w c.type_id c.key) t key ≡ some s = rw q at e in
        ground (arith, slot-detached w c.type_id c.key t key)
  ]

  pub slots-removed :
      (w : World P) (c : Cleanup P) (s : ℕ)
      → (remove_if_same w c.type_id c.key c.slot c.generation).slots s ≡ w.slots s
  slots-removed w c s = elim (remove_if_same_cases w c.type_id c.key c.slot c.generation) [
    | inl q ↦ rw q refl
    | inr (look, number, q) ↦ rw q refl
  ]

  pub owes-token :
      (stage : Stage P) (c : Cleanup P) → token stage ≡ some c → owes stage ≡ some c.slot
  owes-token idle c e = cc
  owes-token (building d) c e = ground arith
  owes-token (created d g) c e = ground arith
  owes-token (failing d) c e = ground arith
  owes-token (telling s) c e = cc
  owes-token (waiting s) c e = cc

  module _ {w : World P} {stages : ℕ → Stage P} (h : Heard w stages) (i : ℕ) (stage : Stage P) where
    -- A caller goes on to a stage in which it owns and owes what it did before.
    pub Heard-stage :
        token stage ≡ token (stages i)
        → owes stage ≡ owes (stages i)
        → ((s : ℕ) → ¬ (stage ≡ waiting s))
        → Heard w (update stages i stage)
    Heard-stage same_token same_owes awake = record {
      home = h.home;
      own_home = λ j t key c e f. ground (arith, h.own_home j t key c, h.own_home i t key c);
      owned = λ t key s n e f. let (j, c, p, q) = h.owned t key s n e f in (j, c, ground arith, q);
      heard = λ j s e. elim (Bool-cases (i == j)) [
        | inl q ↦ absurd (awake s (rw q at e))
        | inr q ↦ let (l, r) = h.heard j s (rw q at e) in (l, ground arith)
      ];
    }
