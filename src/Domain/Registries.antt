-- ===== src/Domain/Registries.antt =====
-- src/domain.rs, `Domain::registry`: one registry for each resource type, made when it is first used
-- and kept as `Any`. `World` has them as a function of the type.
use resourcery.Base.{
  ℕ, ◌+◌, ◌<◌, ◌≡◌, refl, sym, ap, subst, ◌∙◌, arith, Option, none, some, ◌==◌, ==_iff, ==_refl,
  if◌then◌else◌, update, Option-cases, inl, inr,
}
use resourcery.DashMap.{DashMap}
use resourcery.World.{Program, Registry}

-- What an `Arc<dyn Any>` points to: a registry, and the resource type that it is for.
pub record Object (P : Program) : Type 0 where
  pub type_id : ℕ
  pub registry : Registry P

module _ (P : Program) (types : DashMap ℕ ℕ) where
  -- `Domain::registries`, from a `TypeId` to an address, with the objects at the addresses.
  pub record Registries : Type 0 where
    pub map : types.Map
    pub objects : ℕ → Object P
    pub next : ℕ

  -- `Registry::default`.
  abbrev pub default : Registry P
  default = record { slot_of = P.entries.empty; live_entries = P.live.empty }

  abbrev pub empty : Registries
  empty = record {
    map = types.empty;
    objects = λ a. record { type_id = 0; registry = default };
    next = 0;
  }

  -- The vacant case of `entry(…).or_insert_with(…)`.
  abbrev made : Registries → ℕ → Registries
  made s t = record {
    map = types.insert s.map t s.next;
    objects = update s.objects s.next (record { type_id = t; registry = default });
    next = s.next + 1;
  }

  -- `registry::<R>`, for the type `t`; `none` means that the `expect` of its downcast panics.
  unfoldable pub registry : Registries → ℕ → Registries × Option ℕ
  registry s t = elim (types.get s.map t) [
    | some a ↦ (s, if (s.objects a).type_id == t then some a else none)
    | none ↦ (made s t, some s.next)
  ]

  -- A change of the registry at an address.
  abbrev pub write : Registries → ℕ → Registry P → Registries
  write s a r = record s { objects = update s.objects a (record (s.objects a) { registry = r }) }

  -- The registry of each type: the one that it has, or the one that it will have.
  unfoldable pub view : Registries → ℕ → Registry P
  view s t = elim (types.get s.map t) [ none ↦ default | some a ↦ (s.objects a).registry ]

  pub data Reach : Registries → Type 0 where
    begin : Reach empty
    calls : {s : Registries} (t : ℕ) → Reach s → Reach (registry s t).0
    writes : {s : Registries} (a : ℕ) (r : Registry P) → Reach s → Reach (write s a r)

  record Inv (s : Registries) : Type 0 where
    typed : (t a : ℕ) → types.get s.map t ≡ some a → (s.objects a).type_id ≡ t
    below : (t a : ℕ) → types.get s.map t ≡ some a → a < s.next

  registry-some :
      (s : Registries) → Inv s → (t a : ℕ) → types.get s.map t ≡ some a → registry s t ≡ (s, some a)
  unfolding registry
  registry-some s v t a e = rw (e, registry) (rw (v.typed t a e) (rw (==_refl t)))

  registry-none :
      (s : Registries) (t : ℕ) → types.get s.map t ≡ none → registry s t ≡ (made s t, some s.next)
  unfolding registry
  registry-none s t e = rw (e, registry)

  get-made :
      (s : Registries) (t u : ℕ)
      → types.get (made s t).map u ≡ (if t == u then some s.next else types.get s.map u)
  get-made s t u = ground (arith, types.get-insert s.map t s.next u, ==_iff t u)

  made-Inv : (s : Registries) → Inv s → (t : ℕ) → Inv (made s t)
  made-Inv s v t = record {
    typed = λ u a e. ground (arith, get-made s t u, v.typed u a, v.below u a, ==_iff t u);
    below = λ u a e. ground (arith, get-made s t u, v.below u a);
  }

  registry-Inv : (s : Registries) → Inv s → (t : ℕ) → Inv (registry s t).0
  registry-Inv s v t = elim (Option-cases (types.get s.map t)) [
    | inl e ↦ rw (registry-none s t e) (made-Inv s v t)
    | inr (a, e) ↦ rw (registry-some s v t a e) v
  ]

  Reach-Inv : {s : Registries} → Reach s → Inv s
  Reach-Inv begin = record {
    typed = λ t a e. absurd (cc (types.get-empty t));
    below = λ t a e. absurd (cc (types.get-empty t));
  }
  Reach-Inv (calls {s} t r) = registry-Inv s (Reach-Inv r) t
  Reach-Inv (writes {s} a reg r) =
      let v = Reach-Inv r in
      record { typed = λ t b e. ground (arith, v.typed t b); below = v.below }

  view-some :
      (s : Registries) (t a : ℕ) → types.get s.map t ≡ some a → view s t ≡ (s.objects a).registry
  unfolding view
  view-some s t a e = rw (e, view)

  view-made :
      (s : Registries) → Inv s → (t u : ℕ) → types.get s.map t ≡ none → view (made s t) u ≡ view s u
  unfolding view
  view-made s v t u e = elim (Option-cases (types.get s.map u)) [
    | inl q ↦ ground (arith, get-made s t u, ==_refl s.next)
    | inr (b, q) ↦ ground (arith, get-made s t u, v.below u b q, ==_iff t u)
  ]

  -- A write to the registry of one type is not seen through the others.
  view-write :
      (s : Registries)
      → Inv s
      → (t a u : ℕ) (r : Registry P) → types.get s.map t ≡ some a
      → view (write s a r) u ≡ update (view s) t r u
  unfolding view
  view-write s v t a u r e = elim (Option-cases (types.get s.map u)) [
    | inl q ↦ ground (arith, ==_iff t u)
    | inr (b, q) ↦ ground (arith, v.typed t a e, v.typed u b q, ==_iff a b, ==_iff t u)
  ]

  -- How a call serves its caller.
  pub record Served (s : Registries) (t : ℕ) : Type 0 where
    pub place : ℕ
    -- the downcast works, and every later call for the type gives the same registry
    pub found : (registry s t).1 ≡ some place
    pub again : registry (registry s t).0 t ≡ ((registry s t).0, some place)
    -- no registry is changed by the call, one by what the caller does with the result
    pub same : (u : ℕ) → view (registry s t).0 u ≡ view s u
    pub own :
        (r : Registry P) (u : ℕ) → view (write (registry s t).0 place r) u ≡ update (view s) t r u

  served :
      (s u : Registries) (t a : ℕ)
      → registry s t ≡ (u, some a)
      → Inv u
      → types.get u.map t ≡ some a
      → ((k : ℕ) → view u k ≡ view s k)
      → Served s t
  served s u t a q v e same =
      let left : (registry s t).0 ≡ u = ap (λ (p : Registries × Option ℕ). p.0) q in
      record {
        place = a;
        found = ap (λ (p : Registries × Option ℕ). p.1) q;
        again =
            subst (λ (x : Registries). registry x t ≡ (x, some a)) (sym left)
              (registry-some u v t a e);
        same = λ k. ap (λ (x : Registries). view x k) left ∙ same k;
        own = λ r k.
            ap (λ (x : Registries). view (write x a r) k) left
            ∙ view-write u v t a k r e
            ∙ ground (arith, same k);
      }

  -- In every state that calls of `registry` for any types, and changes of the registries, reach from
  -- an empty map: a call does not panic in its downcast; a further call for the type gives the same
  -- registry and changes nothing; and the registries are as if there were one for each type from
  -- the start, empty at first. The call leaves all of them alone, and a change of the registry that
  -- it gives changes the one of its type and no other.
  pub registry-Served : {s : Registries} → Reach s → (t : ℕ) → Served s t
  registry-Served {s} r t =
      let v = Reach-Inv r in
      elim (Option-cases (types.get s.map t)) [
        | inl e ↦
            served s (made s t) t s.next (registry-none s t e) (made-Inv s v t)
              (ground (arith, get-made s t t, ==_refl t)) (λ k. view-made s v t k e)
        | inr (a, e) ↦ served s s t a (registry-some s v t a e) v e (λ k. refl)
      ]
