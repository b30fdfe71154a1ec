-- ===== src/Context/Steps.antt =====
-- src/context.rs: what a registration that succeeds, and one that fails, leave behind.
use resourcery.Base.{ℕ, ◌≡◌, true, false, Option, some, arith, ==_refl}
use resourcery.Lifecycle
use resourcery.Lifecycle.{Phase}
use resourcery.World.{Program, Cleanup, World}
use resourcery.Domain.{control, is_accepting}
use resourcery.Reference.{strong}
use resourcery.Registry.{slot}
use resourcery.Context.Create.{shutting_down, ok, err, establish}

module _ {P : Program} (w : World P) (t : ℕ) (f : Option (Cleanup P)) (i : P.Interface) where
  -- In a domain that accepts, what was built is a new generation: active, with one lease, its
  -- interface and its cleanup, and no slot has changed.
  pub record Established : Type 0 where
    pub result : (establish w t f i).1 ≡ ok w.next_generation
    pub accepting : is_accepting (establish w t f i).0 ≡ true
    pub phase : (control (establish w t f i).0 w.next_generation).phase ≡ Lifecycle.active
    pub leased : strong (establish w t f i).0 w.next_generation ≡ 1
    pub interface : ((establish w t f i).0.generations w.next_generation).interface ≡ some i
    pub on_finish : ((establish w t f i).0.generations w.next_generation).on_finish ≡ f
    pub slots : (establish w t f i).0.slots ≡ w.slots
    pub slot_of : (u : ℕ) (key : P.Key) → slot (establish w t f i).0 u key ≡ slot w u key

  pub establish-Established : is_accepting w ≡ true → Established
  unfolding establish is_accepting slot Lifecycle.new
  establish-Established a = record {
    result = ground (arith, ==_refl w.next_generation);
    accepting = ground (arith, ==_refl w.next_generation);
    phase = ground (arith, ==_refl w.next_generation);
    leased = ground (arith, ==_refl w.next_generation);
    interface = ground (arith, ==_refl w.next_generation);
    on_finish = ground (arith, ==_refl w.next_generation);
    slots = ground (arith, ==_refl w.next_generation);
    slot_of = λ u key. ground (arith, ==_refl w.next_generation);
  }

  -- In a domain that does not accept, what was built is not registered: its control is cancelled
  -- and its one lease gone, and no slot has changed.
  pub record Refused : Type 0 where
    pub result : (establish w t f i).1 ≡ err shutting_down
    pub phase : (control (establish w t f i).0 w.next_generation).phase ≡ Lifecycle.cancelling
    pub unleased : strong (establish w t f i).0 w.next_generation ≡ 0
    pub tasks : (establish w t f i).0.tasks ≡ w.tasks
    pub slots : (establish w t f i).0.slots ≡ w.slots
    pub slot_of : (u : ℕ) (key : P.Key) → slot (establish w t f i).0 u key ≡ slot w u key

  pub establish-Refused : is_accepting w ≡ false → Refused
  unfolding establish is_accepting slot Lifecycle.new
  establish-Refused a = record {
    result = ground (arith, ==_refl w.next_generation);
    phase = ground (arith, ==_refl w.next_generation);
    unleased = ground (arith, ==_refl w.next_generation);
    tasks = ground (arith, ==_refl w.next_generation);
    slots = ground (arith, ==_refl w.next_generation);
    slot_of = λ u key. ground (arith, ==_refl w.next_generation);
  }
