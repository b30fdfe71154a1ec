-- ===== src/Placement.antt =====
-- src/placement.rs: how a creation input is mapped to an identity.
use resourcery.Base.{◌≡◌, refl, Bool, true, false}

-- The implementors of the trait `Placement`, for a resource with this input; `Keyed<K>` holds the
-- function `Keyer::key` of `K`.
pub data Placement (Input : Type 0) (KeyedKey : Type 0) : Type 0 where
  unique singleton : Placement Input KeyedKey
  keyed : (key : Input → KeyedKey) → Placement Input KeyedKey

module _ {Input KeyedKey : Type 0} where
  -- The associated type `Key`.
  abbrev pub Key : Placement Input KeyedKey → Type 0
  Key unique = Unit {0}
  Key singleton = Unit {0}
  Key (keyed key) = KeyedKey

  -- The associated constant `CANONICAL`.
  unfoldable pub canonical : Placement Input KeyedKey → Bool
  canonical unique = false
  canonical singleton = true
  canonical (keyed key) = true

  unfoldable pub placement_key : (p : Placement Input KeyedKey) → Input → Key p
  placement_key unique input = tt
  placement_key singleton input = tt
  placement_key (keyed key) input = key input

  -- `CanonicalPlacement::key`, which only `Singleton` and `Keyed` implement.
  unfoldable pub canonical_key : (p : Placement Input KeyedKey) → canonical p ≡ true → Input → Key p
  unfolding canonical
  canonical_key unique h input = absurd (cc)
  canonical_key singleton h input = tt
  canonical_key (keyed key) h input = key input

  -- The two traits agree.
  canonical_key-placement_key :
      (p : Placement Input KeyedKey) (h : canonical p ≡ true) (input : Input)
      → canonical_key p h input ≡ placement_key p input
  unfolding canonical_key placement_key
  canonical_key-placement_key unique h input = refl
  canonical_key-placement_key singleton h input = refl
  canonical_key-placement_key (keyed key) h input = refl
