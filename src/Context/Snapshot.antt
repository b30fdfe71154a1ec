-- ===== src/Context/Snapshot.antt =====
-- src/context.rs, `all`: which generations it gives out.
use resourcery.Base.{
  ℕ, zero, suc, ◌≡◌, ◌∙◌, ap, sym, refl, Bool, true, false, ◌&&◌, not, some, List, [], ◌∷◌, In,
  arith, ◌==◌, ==_refl, Bool-cases, inl, inr, ◌↔◌, ◌⊎◌, if◌then◌else◌,
}
use resourcery.Lifecycle
use resourcery.World.{Program, World}
use resourcery.Domain.{control, is_accepting, try_acquire}
use resourcery.Reference.{strong, set_strong, acquire_entry, drop_ref}
use resourcery.Reference.Leases.{drop_ref-set_strong}
use resourcery.Registry.{live_snapshot}
use resourcery.Context.Discover.{acquire_each, all}

pub Nat-cases : (n : ℕ) → ((n ≡ 0) ⊎ ((m : ℕ) × (n ≡ suc m)))
Nat-cases zero = inl refl
Nat-cases (suc m) = inr (m, refl)

-- One entry more, which is taken if it passes the test.
In-cons :
    (b p : Bool) (g h : ℕ) (gs xs : List ℕ)
    → (h ≡ g → b ≡ p)
    → (In h xs ↔ (In h gs × (p ≡ true)))
    → (In h (if b then g ∷ xs else xs) ↔ (In h (g ∷ gs) × (p ≡ true)))
In-cons true p g h gs xs e (there, back) = (
  λ x. elim x [ inl q ↦ (inl q, sym (e q)) | inr y ↦ (inr (there y).0, (there y).1) ],
  λ (x, q). elim x [ inl r ↦ inl r | inr y ↦ inr (back (y, q)) ],
)
In-cons false p g h gs xs e (there, back) = (
  λ x. (inr (there x).0, (there x).1),
  λ (x, q). elim x [ inl r ↦ absurd (cc (e r, q)) | inr y ↦ back (y, q) ],
)

module _ {P : Program} where
  -- Whether a lease on the generation can be had: it has one, it is active, and its domain accepts.
  unfoldable pub acquirable : World P → ℕ → Bool
  unfolding is_accepting Lifecycle.is_active
  acquirable w g = not (strong w g == 0) && is_accepting w && Lifecycle.is_active (control w g)

  pub result-acquire_entry : (w : World P) (g : ℕ) → (acquire_entry w g).1 ≡ acquirable w g
  unfolding acquire_entry acquirable is_accepting Lifecycle.is_active
  result-acquire_entry w g = ground (arith, ==_refl g)

  acquirable-set_strong :
      (w : World P) (g n h : ℕ)
      → strong w g ≡ suc n
      → acquirable (set_strong w g (suc (suc n))) h ≡ acquirable w h
  unfolding acquirable is_accepting Lifecycle.is_active
  acquirable-set_strong w g n h e = ground arith

  acquire_entry-eq-none : (w : World P) (g : ℕ) → strong w g ≡ 0 → (acquire_entry w g).0 ≡ w
  unfolding acquire_entry
  acquire_entry-eq-none w g e = rw (e, acquire_entry) refl

  acquire_entry-eq-some :
      (w : World P) (g n : ℕ)
      → strong w g ≡ suc n
      → (acquire_entry w g).0 ≡ (
          if try_acquire (set_strong w g (suc (suc n))) g
          then set_strong w g (suc (suc n))
          else drop_ref (set_strong w g (suc (suc n))) g)
  unfolding acquire_entry
  acquire_entry-eq-some w g n e = rw (e, acquire_entry) (ground arith)

  pub acquire_entry-eq-refused :
      (w : World P) (g : ℕ) → acquirable w g ≡ false → (acquire_entry w g).0 ≡ w
  unfolding acquirable is_accepting Lifecycle.is_active try_acquire
  acquire_entry-eq-refused w g a = elim (Nat-cases (strong w g)) [
    | inl e ↦ acquire_entry-eq-none w g e
    | inr (n, e) ↦
        acquire_entry-eq-some w g n e
        ∙ elim (Bool-cases (try_acquire (set_strong w g (suc (suc n))) g)) [
          | inl b ↦ absurd (ground (arith, ==_refl g))
          | inr b ↦ rw b (drop_ref-set_strong w g n e)
        ]
  ]

  -- The attempt to acquire one entry leaves all others as acquirable as they were, and that one too.
  acquirable-acquire_entry :
      (w : World P) (g h : ℕ) → acquirable (acquire_entry w g).0 h ≡ acquirable w h
  acquirable-acquire_entry w g h = elim (Nat-cases (strong w g)) [
    | inl e ↦ ap (λ u. acquirable u h) (acquire_entry-eq-none w g e)
    | inr (n, e) ↦
        ap (λ u. acquirable u h) (acquire_entry-eq-some w g n e)
        ∙ elim (Bool-cases (try_acquire (set_strong w g (suc (suc n))) g)) [
          | inl b ↦ rw b (acquirable-set_strong w g n h e)
          | inr b ↦ rw b (ap (λ u. acquirable u h) (drop_ref-set_strong w g n e))
        ]
  ]

  In-acquire_each :
      (w : World P) (gs : List ℕ) (h : ℕ)
      → In h (acquire_each w gs).1 ↔ (In h gs × (acquirable w h ≡ true))
  unfolding acquire_each
  In-acquire_each w [] h = (λ x. absurd x, λ x. x.0)
  In-acquire_each w (g ∷ gs) h =
      let w' = (acquire_entry w g).0 in
      let same = acquirable-acquire_entry w g h in
      let this = result-acquire_entry w g in
      In-cons (acquire_entry w g).1 (acquirable w h) g h gs (acquire_each w' gs).1
        (λ e. this ∙ ap (acquirable w) (sym e)) (rw (← same) (In-acquire_each w' gs h))

  -- `all` gives out a generation exactly if the registry lists it as live under some task and a
  -- lease on it can be had: it has one, it is active, and its domain accepts. The leases that it
  -- takes on the way change nothing in that.
  pub all-In :
      (w : World P) (t h : ℕ)
      → In h (all w t).1 ↔ (
          ((id : ℕ) × (P.live.get (w.registries t).live_entries id ≡ some h))
          × (acquirable w h ≡ true))
  unfolding all live_snapshot
  all-In w t h =
      let (there, back) = In-acquire_each w (live_snapshot w t) h in
      (
        λ x. (P.live.key_of_value (w.registries t).live_entries h (there x).0, (there x).1),
        λ ((id, e), a). back (P.live.value_of_key (w.registries t).live_entries id h e, a),
      )
