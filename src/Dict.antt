-- ===== src/Dict.antt =====
-- Go's `map[string]V`. An entry that is assigned keeps its place, a new one goes to the end: the
-- order stands for the order of a `range` loop, which Go leaves open.
pub mod Distinct
use resilix.Prelude.{
  ℕ, ◌+◌, String, ◌≡◌, refl, Bool, true, false, Option, none, some, List, [], ◌∷◌, arith, ◌||◌,
  ◌&&◌, not, length, eq_iff, str_eq, if◌then◌else◌,
}

pub record Dict {ℓ} (V : Type ℓ) : Type ℓ where
  pub entries : List (String × V)

module _ {ℓ} {V : Type ℓ} where
  unfoldable pub lookup : String → List (String × V) → Option V
  lookup k [] = none
  lookup k ((j, v) ∷ l) = if str_eq j k then some v else lookup k l

  unfoldable pub insert : String → V → List (String × V) → List (String × V)
  insert k v [] = (k, v) ∷ []
  insert k v ((j, w) ∷ l) = if str_eq j k then (j, v) ∷ l else (j, w) ∷ insert k v l

  unfoldable pub without : String → List (String × V) → List (String × V)
  without k [] = []
  without k ((j, v) ∷ l) = let rest = without k l in if str_eq j k then rest else (j, v) ∷ rest

  lookup-insert :
      (k j : String) (v : V) (l : List (String × V))
      → lookup j (insert k v l) ≡ (if str_eq k j then some v else lookup j l)
  unfolding lookup insert
  lookup-insert k j v [] = refl
  lookup-insert k j v ((i, w) ∷ l) =
      ground (arith, eq_iff k j, eq_iff i k, eq_iff i j, lookup-insert k j v l)

  lookup-without :
      (k j : String) (l : List (String × V))
      → lookup j (without k l) ≡ (if str_eq k j then none else lookup j l)
  unfolding lookup without
  lookup-without k j [] = ground arith
  lookup-without k j ((i, v) ∷ l) =
      ground (arith, eq_iff k j, eq_iff i k, eq_iff i j, lookup-without k j l)

  -- `make(map[string]V)`
  unfoldable pub empty : Dict V
  empty = record { entries = [] }

  -- `v, ok := m[k]`
  unfoldable pub get : Dict V → String → Option V
  unfolding lookup
  get d k = lookup k d.entries

  -- `m[k] = v`
  unfoldable pub put : Dict V → String → V → Dict V
  unfolding insert
  put d k v = record { entries = insert k v d.entries }

  -- `delete(m, k)`
  unfoldable pub remove : Dict V → String → Dict V
  unfolding without
  remove d k = record { entries = without k d.entries }

  -- `len(m)`
  unfoldable pub size : Dict V → ℕ
  size d = length d.entries

  unfoldable pub keys_of : List (String × V) → List String
  keys_of [] = []
  keys_of ((k, v) ∷ l) = k ∷ keys_of l

  unfoldable pub keys : Dict V → List String
  unfolding keys_of
  keys d = keys_of d.entries

  -- `m[k]` with the value that stands for a missing key
  unfoldable pub get_or : Dict V → String → V → V
  unfolding get
  get_or d k default = elim (get d k) [ none ↦ default | some v ↦ v ]

  unfoldable pub has : Dict V → String → Bool
  has d k = elim (get d k) [ none ↦ false | some v ↦ true ]

  pub get-put :
      (d : Dict V) (k j : String) (v : V)
      → get (put d k v) j ≡ (if str_eq k j then some v else get d j)
  unfolding get put
  get-put d k j v = lookup-insert k j v d.entries

  pub get-remove :
      (d : Dict V) (k j : String) → get (remove d k) j ≡ (if str_eq k j then none else get d j)
  unfolding get remove
  get-remove d k j = lookup-without k j d.entries

  pub get_or_lem :
      (d : Dict V) (k : String) (default : V)
      → get_or d k default ≡ elim (get d k) [ none ↦ default | some v ↦ v ]
  unfolding get_or
  get_or_lem d k default = refl

  length-insert :
      (k : String) (v : V) (l : List (String × V))
      → length (insert k v l) ≡ (elim (lookup k l) [ none ↦ 1 | some w ↦ 0 ]) + length l
  unfolding insert lookup
  length-insert k v [] = refl
  length-insert k v ((j, w) ∷ l) = ground (arith, length-insert k v l)

  pub size-put :
      (d : Dict V) (k : String) (v : V)
      → size (put d k v) ≡ (elim (get d k) [ none ↦ 1 | some w ↦ 0 ]) + size d
  unfolding size put get
  size-put d k v = length-insert k v d.entries

  pub has-put : (d : Dict V) (k j : String) (v : V) → has (put d k v) j ≡ (str_eq k j || has d j)
  unfolding has
  has-put d k j v = ground (arith, get-put d k j v)

  pub has-remove : (d : Dict V) (k j : String) → has (remove d k) j ≡ (not (str_eq k j) && has d j)
  unfolding has
  has-remove d k j = ground (arith, get-remove d k j)

pub get-empty {ℓ} : {V : Type ℓ} (k : String) → get (empty {V = V}) k ≡ none
unfolding get empty
get-empty k = refl

pub ruleset dict_laws = (get-empty, get-put, get-remove)
