-- ===== src/Supervision/Histories.antt =====
-- src/domain.rs and src/context.rs: what a run of the supervisors keeps of their tasks and outcomes.
use resourcery.Base.{
  ℕ, suc, ◌+◌, ◌^◌, ◌≤◌, ◌<◌, ◌≡◌, refl, ◌∙◌, ap, inl, inr, ◌⊎◌, some, [], ◌∷◌, arith, ==_iff,
  ==_refl, update, subst,
}
use resourcery.World.{Program, Outcome, completed, failed, panicked, aborted}
use resourcery.Domain.Frame.{tasks-task_finished}
use resourcery.Registry.{remove_live}
use resourcery.Context.Settled.{outcomes}
use resourcery.Context.{
  outcome_of, Joined, literal, owned, other, returned_ok, returned_err, join_panic, join_cancelled,
  finish_control, panic_message,
}
use resourcery.Supervision.{
  Duty, absent, registered, watching, finished, cleaned, published, unlisted, retired, State, Step,
  elsewhere, creates, spawns, ends, cleans, skips, publishes, delists, retires, Reach, after, Run,
  stop, go,
}
use resourcery.Supervision.Tasks.{find, find-insert_task, find-remove_task}
use resourcery.Supervision.Invariant.{Inv, sent, settled}
use resourcery.Supervision.Steps.{Move-Plain, run_cleanup-Plain}
use resourcery.Supervision.Creation.{establish-Registered}
use resourcery.Supervision.Duties.{next_task-task_finished}
use resourcery.Supervision.Quiescence.{Reach-Inv}

-- The outcome that is due for a task that ended so.
abbrev pub Reflects : {E : Type 0} → Joined E → Outcome E → Type 0
Reflects returned_ok outcome = outcome ≡ completed
Reflects (returned_err e) outcome = outcome ≡ failed e
Reflects (join_panic (literal message)) outcome = outcome ≡ panicked message
Reflects (join_panic (owned message)) outcome = outcome ≡ panicked message
Reflects (join_panic other) outcome = outcome ≡ panicked "resource task panicked"
Reflects join_cancelled outcome = outcome ≡ aborted

outcome_of-Reflects : {E : Type 0} (joined : Joined E) → Reflects joined (outcome_of joined)
unfolding outcome_of panic_message
outcome_of-Reflects returned_ok = refl
outcome_of-Reflects (returned_err e) = refl
outcome_of-Reflects (join_panic (literal message)) = refl
outcome_of-Reflects (join_panic (owned message)) = refl
outcome_of-Reflects (join_panic other) = refl
outcome_of-Reflects join_cancelled = refl

sent-settled :
    {E : Type 0} (duty : Duty E) (outcome : Outcome E)
    → settled duty ≡ some outcome
    → (sent duty ≡ []) ⊎ (sent duty ≡ outcome ∷ [])
sent-settled absent o e = inl refl
sent-settled (registered id) o e = inl refl
sent-settled (watching id) o e = inl refl
sent-settled (finished id p) o e = inl refl
sent-settled (cleaned id p) o e = inl refl
sent-settled (published id p) o e = inr cc
sent-settled (unlisted id p) o e = inr cc
sent-settled (retired p) o e = inr cc

module _ {P : Program} where
  -- What comes later: an id that was given out is not given to another task, and the outcome of a
  -- task that is over stays what it is.
  record Later (a b : State P) : Type 0 where
    pub grows : a.world.next_task ≤ b.world.next_task
    pub kept :
        (id g : ℕ)
        → id < a.world.next_task
        → find id b.world.tasks ≡ some g
        → find id a.world.tasks ≡ some g
    pub fixed :
        (g : ℕ) (outcome : Outcome P.Error)
        → settled (a.duties g) ≡ some outcome
        → settled (b.duties g) ≡ some outcome

  Later-after : {a b c : State P} → Later a b → Later b c → Later a c
  Later-after p q = record {
    grows = omega (arith, p.grows, q.grows);
    kept = λ id g h e. p.kept id g h (q.kept id g (omega (arith, h, p.grows)) e);
    fixed = λ g o e. q.fixed g o (p.fixed g o e);
  }

  -- The tasks are left alone, and the supervisor of one generation goes on.
  Later-duty :
      {a b : State P} (g : ℕ) (duty : Duty P.Error)
      → b.world.tasks ≡ a.world.tasks
      → b.world.next_task ≡ a.world.next_task
      → b.duties ≡ update a.duties g duty
      → ((outcome : Outcome P.Error)
          → settled (a.duties g) ≡ some outcome
          → settled duty ≡ some outcome)
      → Later a b
  Later-duty g duty p q d same = record {
    grows = omega (arith, q);
    kept = λ id h l e. ground (arith, p);
    fixed = λ h o e. ground (arith, d, same o, ==_iff g h);
  }

  Step-Later :
      {k : ℕ} {a b : State P} → suc (suc k) < 2 ^ 64 → Step a b → Inv k a.world a.duties → Later a b
  unfolding finish_control remove_live
  Step-Later {a = a} {b} h (elsewhere m q e) v =
      let p = Move-Plain m q in
      record {
        grows = omega (arith, p.next_task);
        kept = λ id g l f. ground (arith, p.tasks);
        fixed = λ g o f. ground (arith, e);
      }
  Step-Later {a = a} h (creates t f i e) v =
      let r = establish-Registered a.world t f i in
      rw e (record {
        grows = ground (arith, v.few, r.next_task);
        kept = λ id g l q. ground (
          arith,
          r.tasks,
          find-insert_task a.world.next_task a.world.next_generation id a.world.tasks,
        );
        fixed = λ g o q. ground (arith, v.fresh g);
      })
  Step-Later h (spawns g id d e) v = rw e (Later-duty g (watching id) refl refl refl (λ o q. cc))
  Step-Later h (ends g id joined d e) v =
      rw e (Later-duty g (finished id (outcome_of joined)) refl refl refl (λ o q. cc))
  Step-Later {a = a} h (cleans g id outcome d e) v =
      let p = run_cleanup-Plain a.world (a.world.generations g).on_finish in
      rw e (Later-duty g (cleaned id outcome) p.tasks p.next_task refl (λ o q. cc))
  Step-Later h (skips g id outcome d e) v =
      rw e (Later-duty g (cleaned id outcome) refl refl refl (λ o q. cc))
  Step-Later h (publishes g id outcome d e) v =
      rw e (Later-duty g (published id outcome) refl refl refl (λ o q. cc))
  Step-Later h (delists g id t outcome d e) v =
      rw e (Later-duty g (unlisted id outcome) refl refl refl (λ o q. cc))
  Step-Later {a = a} h (retires g id outcome d e) v = rw e (record {
    grows = omega (arith, next_task-task_finished a.world id);
    kept = λ i j l q.
        ground (arith, tasks-task_finished a.world id, find-remove_task id i a.world.tasks);
    fixed = λ j o q. ground (arith, d, ==_iff g j);
  })

  Later-refl : (a : State P) → Later a a
  Later-refl a = record { grows = omega arith; kept = λ id g h e. e; fixed = λ g o e. e }

  Run-Later :
      (n k : ℕ) {a b : State P}
      → Reach k a
      → Run n a b
      → suc (k + n) < 2 ^ 64
      → Later a b × Inv (k + n) b.world b.duties
  Run-Later n k {a} r stop h = (
    Later-refl a,
    subst (λ m. Inv m a.world a.duties) (omega arith) (Reach-Inv r (omega (arith, h))),
  )
  Run-Later n k {b = b} r (go {n = m} s rest) h =
      let (l, v) = Run-Later m (suc k) (after r s) rest (omega arith) in
      (
        Later-after (Step-Later (omega arith) s (Reach-Inv r (omega arith))) l,
        subst (λ i. Inv i b.world b.duties) (omega arith) v,
      )

  -- In every state that a new domain reaches, the next task id is at most the number of steps, so it
  -- has not wrapped, while there are fewer than 2 ^ 64 - 1 of these. The id of a task is below the
  -- next one; no other generation ever has it, however the run goes on; and no generation has two.
  pub Reach-bounds :
      {k n : ℕ} {a b : State P}
      → Reach k a
      → Run n a b
      → suc (k + n) < 2 ^ 64
      → (a.world.next_task ≤ k)
        × (a.world.next_task ≤ b.world.next_task)
        × ((id g : ℕ)
            → find id a.world.tasks ≡ some g
            → (id < a.world.next_task)
              × ((h : ℕ) → find id b.world.tasks ≡ some h → h ≡ g)
              × ((other : ℕ) → find other a.world.tasks ≡ some g → id ≡ other))
  Reach-bounds {k} {n} r run h =
      let v = Reach-Inv r (omega arith) in
      let (l, _) = Run-Later n k r run h in
      (
        v.few,
        l.grows,
        λ id g e. (
          v.known id g e,
          λ j f. ground (arith, l.kept id j (v.known id g e) f),
          λ other f. ground (arith, v.watched id g e, v.watched other g f),
        ),
      )

  -- The task of a generation ends.
  abbrev pub task_ended : State P → ℕ → ℕ → Joined P.Error → State P
  task_ended a g id joined = record {
    world = finish_control a.world g;
    duties = update a.duties g (finished id (outcome_of joined));
  }

  -- When the task of a generation ends, no outcome was published for it; and however the run goes
  -- on, in fewer than 2 ^ 64 - 2 steps in all, at most one is: `Completed` if the task returned
  -- `Ok`, `Failed` with its error, `Panicked` with the message of its panic, or the standard one if
  -- the payload is no text, and `Aborted` if it was aborted.
  pub Reach-outcomes :
      {k n : ℕ} {a b : State P} (g id : ℕ) (joined : Joined P.Error)
      → Reach k a
      → a.duties g ≡ watching id
      → Run n (task_ended a g id joined) b
      → suc (suc (k + n)) < 2 ^ 64
      → (outcomes g a.world.calls ≡ [])
        × ((outcomes g b.world.calls ≡ [])
            ⊎ ((outcome : Outcome P.Error) × (outcomes g b.world.calls ≡ outcome ∷ [])
                × Reflects joined outcome))
  Reach-outcomes {k} {n} {a} {b} g id joined r d run h =
      let x = task_ended a g id joined in
      let (l, v) = Run-Later n (suc k) (after r (ends g id joined d refl)) run (omega arith) in
      let due = outcome_of joined in
      let over = l.fixed g due (ground (arith, ==_refl g)) in
      (
        (Reach-Inv r (omega arith)).reported g ∙ ap sent d,
        elim (sent-settled (b.duties g) due over) [
          | inl e ↦ inl (v.reported g ∙ e)
          | inr e ↦ inr (due, v.reported g ∙ e, outcome_of-Reflects joined)
        ],
      )
