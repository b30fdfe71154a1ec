-- ===== src/Domain/Register.antt =====
-- src/domain.rs, `register`: its two outcomes.
use resourcery.Base.{ℕ, ◌+◌, ◌%◌, ◌^◌, ◌≡◌, ◌⊎◌, true, none, some, arith}
use resourcery.Lifecycle.{starting, active}
use resourcery.World.{Program, World}
use resourcery.Domain.{control, set_control, is_accepting, register_locked, insert_task}

module _ {P : Program} (w : World P) (g : ℕ) where
  -- The world after the generation was registered.
  abbrev pub registered : World P
  registered = record (set_control w g (record (control w g) { phase = active })) {
    next_task = (w.next_task + 1) % 2 ^ 64;
    tasks = insert_task w.next_task g w.tasks;
  }

  pub register_locked_cases :
      (register_locked w g ≡ (w, none))
      ⊎ ((is_accepting w ≡ true)
          × ((control w g).phase ≡ starting)
          × (register_locked w g ≡ (registered, some w.next_task)))
  unfolding register_locked
  register_locked_cases = ground arith
