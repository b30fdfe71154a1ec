-- ===== src/Tests/Samples.antt =====
-- A small application and some states of it.
use resourcery.Base.{ℕ, ◌≡◌, refl, false, none, some}
use native.Mathlib.Decide.{ℕ_discrete}
use resourcery.Placement.{keyed}
use resourcery.Lifecycle
use resourcery.World.{Program, World, Cleanup, new_world, terminated}
use resourcery.Domain.{Meanwhile, is_accepting}
use resourcery.Domain
use resourcery.Reference.{strong}
use resourcery.Registry.{claim, slot, owner}
use resourcery.Context.{
  Resource, Pauses, spec, ok, finish_canonical_creation, supervise, returned_ok, get,
}
use resourcery.Tests.Maps.{assoc, get as get_entry, remove, values_at}

-- Keys, interfaces and errors are numbers.
abbrev pub sample : Program
sample = record { Key = ℕ; Interface = ℕ; Error = ℕ; entries = assoc; live = assoc }

-- A resource whose input is its key.
abbrev pub named : Resource sample
named = record {
  type_id = 0;
  Input = ℕ;
  KeyedKey = ℕ;
  placement = keyed (λ input. input);
  embed = λ key. key;
}

-- Nothing else happens.
abbrev pub idle : Meanwhile sample
idle w = w

-- Nothing else happens at either point of a construction.
abbrev pub calm : Pauses sample
calm = record { building = idle; registered = idle }

abbrev pub fresh : World sample
fresh = new_world

-- Key 7 is claimed.
abbrev pub claimed : World sample
claimed = (claim fresh 0 7 false).0

abbrev pub seventh : Cleanup sample
seventh = record { type_id = 0; key = 7; slot = 0; generation = 1 }

-- Key 7 is held by the generation 0, with the interface 5, whose task has the id 0.
abbrev pub live : World sample
live = (finish_canonical_creation claimed seventh calm (spec 5)).0

-- The domain is shutting down.
abbrev pub stopping : World sample
stopping = Domain.cancel live

-- The definitions that a run of the samples computes with.
unfoldable pub runs : Unit {0}
unfolding new_world claim finish_canonical_creation Domain.cancel get_entry remove values_at
    ℕ_discrete slot is_accepting
runs = tt

claimed_owner : (claim fresh 0 7 false).1 ≡ owner 0 1
unfolding runs
claimed_owner = refl

live_result : (finish_canonical_creation claimed seventh calm (spec 5)).1 ≡ ok 0
unfolding runs
live_result = refl

live_lease : strong live 0 ≡ 1
unfolding runs
live_lease = refl

live_get : (get live 0 7).1 ≡ some 0
unfolding runs get
live_get = refl

stopping_phase : (Domain.control stopping 0).phase ≡ Lifecycle.cancelling
unfolding runs
stopping_phase = refl

settled_phase : (supervise stopping 0 returned_ok).phase ≡ terminated
unfolding runs supervise
settled_phase = refl

settled_slot : slot (supervise live 0 returned_ok) 0 7 ≡ none
unfolding runs supervise
settled_slot = refl
