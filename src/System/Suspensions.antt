-- ===== src/System/Suspensions.antt =====
-- src/context.rs and src/domain.rs: each step of the callers keeps `Waiting`.
use resourcery.Base.{
  ℕ, ◌≡◌, ◌∙◌, sym, ap, inl, inr, none, some, arith, ◌==◌, ==_refl, ==_iff, Bool-cases, update,
}
use resourcery.World.{Program, Cleanup, World, starting, active}
use resourcery.Registry.{slot, set_slot, remove_if_same}
use resourcery.Registry.Ownership.{remove_if_same-owner}
use resourcery.Registry.Cases.{opened, slot-opened}
use resourcery.Context.{cleanup_of}
use resourcery.System.{Stage, idle, building, created, failing, telling, waiting, wake}
use resourcery.System.Invariant.{Inv, token}
use resourcery.System.Waiting.{Heard, Heard-world, slot-removed, slots-removed, owes-token}

module _ {P : Program} where
  module _ {k : ℕ} {w : World P} {stages : ℕ → Stage P} (v : Inv k w stages) (h : Heard w stages)
      (i : ℕ) where
    pub takes_over-Heard :
        (t : ℕ) (key : P.Key) (s n : ℕ)
        → stages i ≡ idle
        → slot w t key ≡ some s
        → Heard (set_slot w s (starting n)) (update stages i (building (cleanup_of t key s n)))
    unfolding slot
    takes_over-Heard t key s n free look = record {
      home = h.home;
      own_home =
          λ j u key' c e f. ground (arith, h.own_home j u key' c, h.home t u key key' s look, e, f);
      owned = λ u key' x m e f. elim (Bool-cases (s == x)) [
        | inl q ↦ (i, cleanup_of t key s n, ground (arith, ==_refl i), (==_iff s x).0 q)
        | inr q ↦ let (j, c, p, r) = h.owned u key' x m e (rw q at f) in (j, c, ground arith, r)
      ];
      heard = λ j x e. let (l, r) = h.heard j x (ground arith) in (l, ground arith);
    }

    pub enters-Heard :
        (t : ℕ) (key : P.Key)
        → stages i ≡ idle
        → slot w t key ≡ none
        → Heard (opened w t key) (update stages i (building (cleanup_of t key w.next_slot 1)))
    enters-Heard t key free vacant = record {
      home = λ x u key' key'' s e f. ground (
        arith,
        h.home x u key' key'' s,
        slot-opened w t key x key',
        slot-opened w t key u key'',
        v.known x key' s,
        v.known u key'' s,
      );
      own_home = λ j u key' c e f. ground (
        arith,
        h.own_home j u key' c,
        slot-opened w t key u key',
        v.own_slot j c,
        v.known u key' c.slot,
      );
      owned = λ u key' x m e f. elim (Bool-cases (w.next_slot == x)) [
        | inl q ↦ (
          i,
          cleanup_of t key w.next_slot 1,
          ground (arith, ==_refl i),
          (==_iff w.next_slot x).0 q,
        )
        | inr q ↦
            let old : slot w u key' ≡ some x = ground (arith, slot-opened w t key u key') in
            let (j, c, p, r) = h.owned u key' x m old (rw q at f) in (j, c, ground arith, r)
      ];
      heard = λ j x e. let (l, r) = h.heard j x (ground arith) in (l, ground arith);
    }

    pub publishes-Heard :
        (c : Cleanup P) (g : ℕ)
        → stages i ≡ created c g
        → Heard (set_slot w c.slot (active c.generation g)) (update stages i (telling c.slot))
    unfolding slot
    publishes-Heard c g s = record {
      home = h.home;
      own_home = λ j u key' d e f. ground (arith, h.own_home j u key' d);
      owned = λ u key' x m e f. elim (Bool-cases (c.slot == x)) [
        | inl q ↦ absurd (ground arith)
        | inr q ↦ let (j, d, p, r) = h.owned u key' x m e (rw q at f) in (j, d, ground arith, r)
      ];
      heard = λ j x e. let (l, r) = h.heard j x (ground arith) in (l, ground arith);
    }

    pub vacates-Heard :
        (c : Cleanup P)
        → stages i ≡ failing c
        → Heard
            (remove_if_same w c.type_id c.key c.slot c.generation)
            (update stages i (telling c.slot))
    vacates-Heard c s =
        let less = Heard-world (slot-removed w c) (slots-removed w c) h in
        record {
          home = less.home;
          own_home = λ j u key' d e f. ground (arith, less.own_home j u key' d);
          owned = λ u key' x m e f.
              let (j, d, p, r) = less.owned u key' x m e f in
              (
                j,
                d,
                ground (arith, not_there u key' x e, v.own_distinct i j c d (ap token s) p),
                r,
              );
          heard = λ j x e. let (l, r) = h.heard j x (ground arith) in (l, ground arith);
        }
      where
        not_there :
            (u : ℕ) (key : P.Key) (x : ℕ)
            → slot (remove_if_same w c.type_id c.key c.slot c.generation) u key ≡ some x
            → ¬ (c.slot ≡ x)
        not_there u key x e same =
            let old = slot-removed w c u key x e in
            let (a, b) = h.own_home i u key c (ap token s) (old ∙ ap some (sym same)) in
            let there : slot w c.type_id c.key ≡ some c.slot = cc (old, a, b, same) in
            let (gone, _) =
              remove_if_same-owner w c.type_id c.key c.slot c.generation
                (there, v.own_state i c (ap token s)) in
            cc (gone, e, a, b)

    pub tells-Heard :
        (s : ℕ) → stages i ≡ telling s → Heard w (λ j. wake s (update stages i idle j))
    tells-Heard s told = record {
      home = h.home;
      own_home = λ j u key' d e f. ground (arith, h.own_home j u key' d);
      owned =
          λ u key' x m e f. let (j, d, p, r) = h.owned u key' x m e f in (j, d, ground arith, r);
      heard = λ j x e. let (l, r) = h.heard j x (ground arith) in (l, ground arith);
    }

    pub waits-Heard :
        (t : ℕ) (key : P.Key) (s n : ℕ)
        → stages i ≡ idle
        → slot w t key ≡ some s
        → w.slots s ≡ starting n
        → Heard w (update stages i (waiting s))
    waits-Heard t key s n free look state = record {
      home = h.home;
      own_home = λ j u key' d e f. ground (arith, h.own_home j u key' d);
      owned =
          λ u key' x m e f. let (j, d, p, r) = h.owned u key' x m e f in (j, d, ground arith, r);
      heard = λ j x e. elim (Bool-cases (i == j)) [
        | inl q ↦
            let (l, d, p, r) = h.owned t key s n look state in
            (l, ground (arith, owes-token (stages l) d p))
        | inr q ↦ let (l, r) = h.heard j x (rw q at e) in (l, ground arith)
      ];
    }

    pub leaves-Heard : (s : ℕ) → stages i ≡ waiting s → Heard w (update stages i idle)
    leaves-Heard s told = record {
      home = h.home;
      own_home = λ j u key' d e f. ground (arith, h.own_home j u key' d);
      owned =
          λ u key' x m e f. let (j, d, p, r) = h.owned u key' x m e f in (j, d, ground arith, r);
      heard = λ j x e. let (l, r) = h.heard j x (ground arith) in (l, ground arith);
    }
