-- ===== src/Dict/Distinct.antt =====
-- The keys of a map are distinct, so that its length counts them.
use resilix.Prelude.{◌+◌, String, ◌≡◌, refl, none, some, List, [], ◌∷◌, arith, length, eq_iff}
use resilix.Dict.{lookup, insert, without, lookup-insert}

module _ {ℓ} {V : Type ℓ} where
  abbrev pub DistinctKeys : List (String × V) → Type ℓ
  DistinctKeys [] = Unit
  DistinctKeys ((k, v) ∷ l) = (lookup k l ≡ none) × DistinctKeys l

  insert-DistinctKeys :
      (k : String) (v : V) (l : List (String × V)) → DistinctKeys l → DistinctKeys (insert k v l)
  unfolding insert lookup
  insert-DistinctKeys k v [] h = (refl, tt)
  insert-DistinctKeys k v ((j, w) ∷ l) h =
      ground (arith, eq_iff j k, eq_iff k j, lookup-insert k j v l, insert-DistinctKeys k v l h.1)

  length-without_absent :
      (k : String) (l : List (String × V)) → lookup k l ≡ none → length (without k l) ≡ length l
  unfolding lookup without
  length-without_absent k [] h = refl
  length-without_absent k ((j, w) ∷ l) h = ground (arith, length-without_absent k l)

  length-without :
      (k : String) (l : List (String × V))
      → DistinctKeys l
      → length (without k l) + (elim (lookup k l) [ none ↦ 0 | some v ↦ 1 ]) ≡ length l
  unfolding lookup without
  length-without k [] h = refl
  length-without k ((j, w) ∷ l) h =
      ground (arith, eq_iff j k, length-without_absent k l, length-without k l h.1)
