-- ===== src/Context/Settled.antt =====
-- src/context.rs: what the supervisor of a task leaves behind when the task is over.
use resourcery.Base.{
  ℕ, ◌≡◌, ap, List, [], ◌∷◌, none, some, arith, if◌then◌else◌, Bool-cases, inl, inr, ==_refl, ◌==◌,
  In, ◌⊎◌,
}
use resourcery.Lifecycle
use resourcery.World.{Program, World, Cleanup, active, Call, publish, Outcome}
use resourcery.Domain.{control, remove_task}
use resourcery.Domain.Frame.{tasks-task_finished}
use resourcery.Registry.{slot, remove_live, generation_of}
use resourcery.Registry.Cases.{slot-detached}
use resourcery.Registry.Ownership.{remove_if_same-eq}
use resourcery.Context.Supervise.{
  Joined, outcome_of, finish_control, run_cleanup, retire, supervise,
}

module _ {V : Type 0} where
  In-remove_task : (id : ℕ) (v : V) (tasks : List (ℕ × V)) → In (id, v) (remove_task id tasks) → ⊥
  unfolding remove_task
  In-remove_task id v [] h = h
  In-remove_task id v ((i, x) ∷ rest) h = elim (Bool-cases (i == id)) [
    | inl e ↦ In-remove_task id v rest (rw e at h)
    | inr e ↦ elim (the_cases (rw e at h)) [
      | inl p ↦ absurd (ground (arith, ap (λ (q : ℕ × V). q.0) p))
      | inr p ↦ In-remove_task id v rest p
    ]
  ]
    where
      the_cases :
          In (id, v) ((i, x) ∷ remove_task id rest)
          → (◌≡◌ {A = ℕ × V} (id, v) (i, x)) ⊎ In (id, v) (remove_task id rest)
      the_cases c = c

-- The outcomes that the calls publish for a generation.
abbrev pub outcomes : {E : Type 0} → ℕ → List (Call E) → List (Outcome E)
outcomes g [] = []
outcomes g (publish h outcome ∷ calls) =
    if g == h then outcome ∷ outcomes g calls else outcomes g calls
outcomes g (_ ∷ calls) = outcomes g calls

module _ {P : Program} (w : World P) (t id : ℕ) where
  slot-retire : (u : ℕ) (key : P.Key) → slot (retire w t (some id)) u key ≡ slot w u key
  unfolding slot retire
  slot-retire u key = ground arith

  tasks-retire : (retire w t (some id)).tasks ≡ remove_task id w.tasks
  unfolding retire remove_live
  tasks-retire = tasks-task_finished (remove_live w t id) id

  live-retire : P.live.get ((retire w t (some id)).registries t).live_entries id ≡ none
  unfolding retire
  live-retire = ground (arith, ==_refl t, P.live.get-remove (w.registries t).live_entries id id)

module _ {P : Program} (w : World P) (g : ℕ) (joined : Joined P.Error) (c : Cleanup P)
    (id : ℕ) where
  -- What the supervisor of a registered, installed generation is given.
  pub record Supervised : Type 0 where
    pub on_finish : (w.generations g).on_finish ≡ some c
    pub task_id : (w.generations g).task_id ≡ some id
    pub type_id : (w.generations g).type_id ≡ c.type_id
    pub slot_of : slot w c.type_id c.key ≡ some c.slot
    pub state : w.slots c.slot ≡ active c.generation g

  phase-supervise : (control (supervise w g joined) g).phase ≡ Lifecycle.finished
  unfolding supervise
  phase-supervise = ground (arith, ==_refl g)

  outcomes-supervise :
      outcomes g (supervise w g joined).calls ≡ outcome_of joined ∷ outcomes g w.calls
  unfolding supervise
  outcomes-supervise = ground (arith, ==_refl g)

  abbrev cleaned : World P
  cleaned = run_cleanup (finish_control w g) (some c)

  abbrev published : World P
  published = record cleaned { calls = publish g (outcome_of joined) ∷ cleaned.calls }

  supervise-eq : Supervised → supervise w g joined ≡ retire published c.type_id (some id)
  unfolding supervise
  supervise-eq h = rw (h.on_finish, h.task_id, h.type_id)

  slot-published : Supervised → slot published c.type_id c.key ≡ none
  unfolding run_cleanup finish_control slot
  slot-published h =
      rw
        (remove_if_same-eq (finish_control w g) c.type_id c.key c.slot c.generation h.slot_of
          (ap generation_of h.state))
        (ground (arith, slot-detached (finish_control w g) c.type_id c.key c.type_id c.key))

  -- When a task is over, its supervisor leaves the generation finished, with one outcome more
  -- published for it, the one that the task's end stands for; the identity that it held is free, and
  -- the supervisor of the domain and the list of live entries know its task no more.
  pub supervise-settles :
      Supervised
      → ((control (supervise w g joined) g).phase ≡ Lifecycle.finished)
        × (outcomes g (supervise w g joined).calls ≡ outcome_of joined ∷ outcomes g w.calls)
        × (slot (supervise w g joined) c.type_id c.key ≡ none)
        × ((h : ℕ) → ¬ In (id, h) (supervise w g joined).tasks)
        × (P.live.get ((supervise w g joined).registries c.type_id).live_entries id ≡ none)
  supervise-settles h = (
    phase-supervise,
    outcomes-supervise,
    rw (supervise-eq h, slot-retire published c.type_id id c.type_id c.key) (slot-published h),
    λ k.
        rw (supervise-eq h, tasks-retire published c.type_id id)
          (In-remove_task id k published.tasks),
    rw (supervise-eq h) (live-retire published c.type_id id),
  )
