-- ===== src/Tests/Maps.antt =====
-- A map that meets the laws of `DashMap`: an association list.
use resourcery.Base.{
  ℕ, ◌≡◌, ◌≢◌, refl, subst, sym, ap, ◌∙◌, Option, none, some, List, [], ◌∷◌, In, arith, ite, inl,
  inr, Option-cases,
}
use native.Mathlib.Decide.{ℕ_discrete}
use resourcery.DashMap.{DashMap}

abbrev Entries : Type 0
Entries = List (ℕ × ℕ)

unfoldable pub get : Entries → ℕ → Option ℕ
unfolding ℕ_discrete
get [] j = none
get ((i, v) ∷ m) j = ite (ℕ_discrete i j) (some v) (get m j)

unfoldable pub remove : Entries → ℕ → Entries
unfolding ℕ_discrete
remove [] k = []
remove ((i, v) ∷ m) k = ite (ℕ_discrete i k) (remove m k) ((i, v) ∷ remove m k)

-- The values that `m` holds at the keys of a list.
unfoldable pub values_at : Entries → Entries → List ℕ
unfolding get
values_at m [] = []
values_at m ((i, x) ∷ keys) =
    let rest = values_at m keys in elim (get m i) [ none ↦ rest | some v ↦ v ∷ rest ]

pub get-remove : (m : Entries) (k j : ℕ) → get (remove m k) j ≡ ite (ℕ_discrete k j) none (get m j)
unfolding get remove
get-remove [] k j = ground arith
get-remove ((i, v) ∷ m) k j = ground (arith, get-remove m k j)

pub get-nil : (k : ℕ) → get [] k ≡ none
unfolding get
get-nil k = refl

pub get-insert :
    (m : Entries) (k v j : ℕ) → get ((k, v) ∷ m) j ≡ ite (ℕ_discrete k j) (some v) (get m j)
unfolding get
get-insert m k v j = refl

get-cons_ne : (i k x : ℕ) (m : Entries) → i ≢ k → get ((i, x) ∷ m) k ≢ none → get m k ≢ none
unfolding get
get-cons_ne i k x m p h = ground arith

-- The list of values, when the first key is looked up.
values_at-some :
    (m : Entries) (i x : ℕ) (keys : Entries) (y : ℕ)
    → get m i ≡ some y
    → values_at m ((i, x) ∷ keys) ≡ y ∷ values_at m keys
unfolding values_at
values_at-some m i x keys y e = rw (e, values_at)

values_at-none :
    (m : Entries) (i x : ℕ) (keys : Entries)
    → get m i ≡ none
    → values_at m ((i, x) ∷ keys) ≡ values_at m keys
unfolding values_at
values_at-none m i x keys e = rw (e, values_at)

pub key_of : (m keys : Entries) (v : ℕ) → In v (values_at m keys) → (k : ℕ) × (get m k ≡ some v)
unfolding values_at
key_of m [] v h = absurd h
key_of m ((i, x) ∷ keys) v h = elim (Option-cases (get m i)) [
  | inl e ↦ key_of m keys v (subst (In v) (values_at-none m i x keys e) h)
  | inr (y, e) ↦ elim (subst (In v) (values_at-some m i x keys y e) h) [
    | inl p ↦ (i, e ∙ ap some (sym p))
    | inr p ↦ key_of m keys v p
  ]
]

pub value_of :
    (m keys : Entries) (k v : ℕ) → get keys k ≢ none → get m k ≡ some v → In v (values_at m keys)
value_of m [] k v h e = absurd (h (get-nil k))
value_of m ((i, x) ∷ keys) k v h e = elim (ℕ_discrete i k) [
  | yes p ↦ subst (In v) (sym (values_at-some m i x keys v (rw p e))) (inl refl)
  | no p ↦
      let later = value_of m keys k v (get-cons_ne i k x keys p h) e in
      elim (Option-cases (get m i)) [
        | inl q ↦ subst (In v) (sym (values_at-none m i x keys q)) later
        | inr (y, q) ↦ subst (In v) (sym (values_at-some m i x keys y q)) (inr later)
      ]
]

pub value-In : (m : Entries) (k v : ℕ) → get m k ≡ some v → In v (values_at m m)
value-In m k v e = value_of m m k v (λ z. cc) e

-- The association list as a `DashMap`.
abbrev pub assoc : DashMap ℕ ℕ
assoc = record {
  Map = Entries;
  key_eq = ℕ_discrete;
  empty = [];
  get = get;
  insert = λ m k v. (k, v) ∷ m;
  remove = remove;
  values = λ m. values_at m m;
  get-empty = get-nil;
  get-insert = get-insert;
  get-remove = get-remove;
  key_of_value = λ m. key_of m m;
  value_of_key = value-In;
}
