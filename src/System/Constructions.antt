-- ===== src/System/Constructions.antt =====
-- src/context.rs, `finish_canonical_creation`: the owner's part of an acquisition is a run of the
-- race, among the other callers.
use resourcery.Base.{
  ℕ, zero, suc, ◌≡◌, ◌∙◌, inl, inr, refl, true, false, arith, ==_refl, Bool-cases, subst, update,
  some, if◌then◌else◌,
}
use resourcery.World.{Program, Cleanup, World, start}
use resourcery.Domain.{is_accepting}
use resourcery.Reference.{drop_ref, strong}
use resourcery.Context.{
  Pauses, drop_guard, install, conclude, finish_canonical_creation, create, establish, Built,
  panics, spec, ok, err, shutting_down, send_start,
}
use resourcery.Context.Steps.{establish-Established, establish-Refused}
use resourcery.Context.Construction.{create-eq-panics, create-eq-spec, pair-eta, armed_guard}
use resourcery.Moves.{calls_out, releases, cancels, one}
use resourcery.Moves.Invariant.{Inv}
use resourcery.Moves.Preservation.{Moves-Inv}
use resourcery.Moves.Operations.{leased-known}
use resourcery.System.{
  Stage, idle, building, created, failing, State, quiet, establishes, abandons, publishes, refuses,
  vacates, tells, Run, stop, go, join,
}

module _ {P : Program} where
  -- A run to a world, after which the caller owns nothing and waits for nothing.
  abbrev pub Ends : State P → ℕ → World P → Type 0
  Ends a i u =
      (stages : ℕ → Stage P) × Run a (record { world = u; stages = stages }) × (stages i ≡ idle)

  -- The state in which `create` has registered what was built, or was refused.
  abbrev pub established : State P → ℕ → Cleanup P → P.Interface → State P
  established b i c iface = record {
    world = (establish b.world c.type_id (some c) iface).0;
    stages =
        update b.stages i
          (if is_accepting b.world then created c b.world.next_generation else failing c);
  }

  -- The rest of the program goes from a state to this world, and the caller stays where it is.
  abbrev pub Elapses : State P → ℕ → World P → State P → Type 0
  Elapses a i u b = Run a b × (b.world ≡ u) × (b.stages i ≡ a.stages i)

  drop_ref-Run :
      (a : State P) (g n : ℕ)
      → Inv a.world
      → strong a.world g ≡ n
      → Run a (record a { world = drop_ref a.world g })
  unfolding drop_ref
  drop_ref-Run a g zero v e = rw (e, drop_ref) stop
  drop_ref-Run a g (suc zero) v e =
      rw (e, drop_ref)
        (go (quiet (releases g 0 e refl) tt refl)
          (go (quiet (cancels g (leased-known v g e) refl) tt refl) stop))
  drop_ref-Run a g (suc (suc n)) v e =
      rw (e, drop_ref) (go (quiet (releases g (suc n) e refl) tt refl) stop)

  module _ (i : ℕ) (c : Cleanup P) where
    Ends-after : {a b : State P} {u : World P} → Run a b → Ends b i u → Ends a i u
    Ends-after r (stages, q, e) = (stages, join r q, e)

    -- The drop of the armed guard, up to the end of its notification.
    guard-Ends :
        (a : State P) → a.stages i ≡ failing c → Ends a i (drop_guard a.world (armed_guard c))
    unfolding drop_guard
    guard-Ends a s = (
      _,
      go (vacates i c s refl) (go (tells i c.slot (ground (arith, ==_refl i)) refl) stop),
      ground (arith, ==_refl i),
    )

    abandons-Ends :
        (a : State P) → a.stages i ≡ building c → Ends a i (drop_guard a.world (armed_guard c))
    abandons-Ends a s =
        Ends-after (go (abandons i c s refl) stop) (guard-Ends _ (ground (arith, ==_refl i)))

    install-ok :
        (a : State P) (g : ℕ)
        → a.stages i ≡ created c g
        → is_accepting a.world ≡ true
        → Ends a i (install a.world c g).0
    unfolding install
    install-ok a g s accepting =
        rw (accepting, install)
          (
            _,
            go (publishes i c g s refl) (
                go (tells i c.slot (ground (arith, ==_refl i)) refl)
                  (go (quiet (calls_out (start g) refl refl) refl refl) stop)),
            ground (arith, ==_refl i),
          )

    install-err :
        (a : State P) (g : ℕ)
        → a.stages i ≡ created c g
        → Inv (send_start a.world g)
        → is_accepting a.world ≡ false
        → Ends a i (install a.world c g).0
    unfolding install
    install-err a g s v rejects =
        let stages = update a.stages i (failing c) in
        let x : State P = record { world = send_start a.world g; stages = stages } in
        rw (rejects, install)
          (Ends-after
            (go (refuses i c g s rejects refl) (
              go {b = x} (quiet (calls_out (start g) refl refl) refl refl)
                (drop_ref-Run x g (strong a.world g) v refl)))
            (guard-Ends (record { world = drop_ref x.world g; stages = stages })
              (ground (arith, ==_refl i))))

    -- The caller goes on from a registration in an accepting domain.
    conclude-ok :
        (b d : State P) (others : Pauses P) (iface : P.Interface)
        → is_accepting b.world ≡ true
        → Elapses (established b i c iface) i (others.registered (established b i c iface).world) d
        → Inv d.world
        → Ends d i (conclude c others.registered (establish b.world c.type_id (some c) iface)).0
    unfolding conclude
    conclude-ok b d others iface acc (run, q, s) v =
        let w = b.world in
        let g = w.next_generation in
        let r = establish w c.type_id (some c) iface in
        let est = establish-Established w c.type_id (some c) iface acc in
        let at : d.stages i ≡ created c g = s ∙ rw acc (ground (arith, ==_refl i)) in
        rw (pair-eta c w others r (ok g) est.result) (
          subst (λ u. Ends d i (install u c g).0) q
            (elim (Bool-cases (is_accepting d.world)) [
              | inl e ↦ install-ok d g at e
              | inr e ↦ install-err d g at (Moves-Inv (one (calls_out (start g) refl refl)) v) e
            ]))

    spec-Ends :
        (b d : State P) (others : Pauses P) (iface : P.Interface)
        → b.stages i ≡ building c
        → Elapses (established b i c iface) i (others.registered (established b i c iface).world) d
        → Inv d.world
        → Ends b i (conclude c others.registered (establish b.world c.type_id (some c) iface)).0
    unfolding conclude
    spec-Ends b d others iface s e v =
        let w = b.world in
        let r = establish w c.type_id (some c) iface in
        let step : Run b (established b i c iface) = go (establishes i c iface s refl) stop in
        elim (Bool-cases (is_accepting w)) [
          | inl acc ↦ Ends-after (join step e.0) (conclude-ok b d others iface acc e v)
          | inr rej ↦
              let refused = establish-Refused w c.type_id (some c) iface rej in
              Ends-after step (
                rw (pair-eta c w others r (err shutting_down) refused.result)
                  (guard-Ends (established b i c iface) (rw rej (ground (arith, ==_refl i)))))
        ]

    finish-refused :
        (a : State P) (others : Pauses P) (built : Built P.Interface)
        → a.stages i ≡ building c
        → is_accepting a.world ≡ false
        → Ends a i (finish_canonical_creation a.world c others built).0
    unfolding finish_canonical_creation conclude create
    finish-refused a others built s rej =
        let q : create a.world c.type_id (some c) others.building built
            ≡ (a.world, err shutting_down) =
          rw (rej, create) refl in
        rw q (abandons-Ends a s)

    -- The owner's part of an acquisition, in the race: if the rest of the program, other callers
    -- included, goes by steps of the race from the caller's state to the one that its build ends in,
    -- and from there, once `create` is done, to the one that its second test of the domain meets,
    -- where the bookkeeping is right, then `finish_canonical_creation` comes, by steps of the race,
    -- to the world that it leaves, with a caller that owns nothing and waits for nothing. This holds
    -- whether the build panics or not, and whenever the domain stops accepting.
    pub finish-Ends :
        (a b d : State P) (others : Pauses P) (iface : P.Interface)
        → a.stages i ≡ building c
        → Elapses a i (others.building a.world) b
        → Elapses (established b i c iface) i (others.registered (established b i c iface).world) d
        → Inv d.world
        → Ends a i (finish_canonical_creation a.world c others panics).0
          × Ends a i (finish_canonical_creation a.world c others (spec iface)).0
    unfolding finish_canonical_creation conclude
    finish-Ends a b d others iface s (run, q, stays) e v =
        let at = stays ∙ s in
        elim (Bool-cases (is_accepting a.world)) [
          | inl acc ↦ (
            rw (create-eq-panics c a.world others acc) (
                subst (λ u. Ends a i (drop_guard u (armed_guard c))) q
                  (Ends-after run (abandons-Ends b at))),
            rw (create-eq-spec c a.world others iface acc) (
                subst
                  (λ u.
                    Ends a i
                      (conclude c others.registered (establish u c.type_id (some c) iface)).0)
                  q (Ends-after run (spec-Ends b d others iface at e v))),
          )
          | inr rej ↦
              (finish-refused a others panics s rej, finish-refused a others (spec iface) s rej)
        ]
