-- ===== src/DashMap.antt =====
-- The concurrent map of the `dashmap` package, as far as src/domain.rs uses it. The package is not
-- part of the repository: its map is a type with the operations that the code calls, each of them
-- one atomic step, and the documented laws that the theorems rely on.
use resourcery.Base.{◌≡◌, ite, Option, none, some, List, In}

pub record DashMap (K V : Type 0) : Type 1 where
  pub Map : Type 0
  -- the key type's `Eq`
  pub key_eq : Discrete K
  pub empty : Map
  -- `get`, and the look of `entry` whether the key is occupied
  pub get : Map → K → Option V
  pub insert : Map → K → V → Map
  pub remove : Map → K → Map
  -- `iter().map(value)`
  pub values : Map → List V
  pub get-empty : (k : K) → get empty k ≡ none
  pub get-insert :
      (m : Map) (k : K) (v : V) (j : K) → get (insert m k v) j ≡ ite (key_eq k j) (some v) (get m j)
  pub get-remove : (m : Map) (k j : K) → get (remove m k) j ≡ ite (key_eq k j) none (get m j)
  -- the iteration visits the values that the map holds, and no others
  pub key_of_value : (m : Map) (v : V) → In v (values m) → (k : K) × (get m k ≡ some v)
  pub value_of_key : (m : Map) (k : K) (v : V) → get m k ≡ some v → In v (values m)
