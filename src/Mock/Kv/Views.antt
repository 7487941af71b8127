-- ===== src/Mock/Kv/Views.antt =====
-- The keys and values that a caller sees at a time, and what the loops over keys do to them.
use resilix.Prelude.{
  ℕ, ◌+◌, String, ◌≡◌, refl, Bool, true, false, ◌||◌, Option, none, some, List, [], ◌∷◌, arith, map,
  if◌then◌else◌, eq_refl, eq_iff, str_eq, ◌∙◌, ap, ap₂, fun_ext, Option-cases, inl, inr,
}
use resilix.Prelude.Int.{Time, ◌≤ℤ◌}
use resilix.Dict
use resilix.Dict.{dict_laws}
use resilix.Mock.{Mock, KvEntry, expired, get_kv}
use resilix.Mock.Kv.{put_kv, get_each, del_one, del_each, exists_one, exists_each}

-- What is seen of an entry.
abbrev pub fresh : Time → Option KvEntry → Option KvEntry
fresh now none = none
fresh now (some e) = if expired now e then none else some e

abbrev pub value_of : Option KvEntry → Option String
value_of none = none
value_of (some e) = some e.value

-- The value that a key has at a time: there is none for a missing key, nor for an expired one.
unfoldable pub value_at : Time → Mock → String → Option String
value_at now m k = value_of (fresh now (Dict.get m.kv k))

pub expired_mono : (s t : Time) (e : KvEntry) → s ≤ℤ t → expired s e ≡ true → expired t e ≡ true
unfolding expired
expired_mono s t e h x = ground arith

-- The values that two states show from a time on are the same.
abbrev pub SameFrom : Time → Mock → Mock → Type 0
SameFrom now m m' = (t : Time) (j : String) → now ≤ℤ t → value_at t m' j ≡ value_at t m j

pub get_kv-value : (now : Time) (k : String) (m : Mock) → (get_kv now k m).0 ≡ value_at now m k
unfolding get_kv value_at
get_kv-value now k m = ground arith

-- Dropping an expired entry is not seen.
pub get_kv-same : (now : Time) (k : String) (m : Mock) → SameFrom now m (get_kv now k m).1
unfolding get_kv value_at
get_kv-same now k m t j h = elim (Option-cases (Dict.get m.kv k)) [
  | inl p ↦ ground (arith, p)
  | inr (e, p) ↦ ground (arith, p, expired_mono now t e h, Dict.get-remove m.kv k j, eq_iff k j)
]

-- Whether a key is among those listed.
unfoldable pub elem : String → List String → Bool
elem j [] = false
elem j (k ∷ ks) = str_eq k j || elem j ks

abbrev pub AllDistinct : List String → Type 0
AllDistinct [] = Unit
AllDistinct (k ∷ ks) = (elem k ks ≡ false) × AllDistinct ks

-- How many of the keys have a value.
abbrev pub is_some : Option String → ℕ
is_some none = 0
is_some (some v) = 1

unfoldable pub live_count : (String → Option String) → List String → ℕ
live_count f [] = 0
live_count f (k ∷ ks) = is_some (f k) + live_count f ks

live_count-ext :
    (f g : String → Option String) (ks : List String)
    → ((j : String) → elem j ks ≡ true → f j ≡ g j)
    → live_count f ks ≡ live_count g ks
unfolding live_count elem
live_count-ext f g [] h = refl
live_count-ext f g (k ∷ ks) h =
    ground (arith, h k, eq_refl k, live_count-ext f g ks (λ j e. h j (ground arith)))

pub get_each-values :
    (now : Time) (ks : List String) (m : Mock) → (get_each now ks m).0 ≡ map (value_at now m) ks
unfolding get_each
get_each-values now [] m = refl
get_each-values now (k ∷ ks) m =
    let m1 = (get_kv now k m).1 in
    let later : value_at now m1 ≡ value_at now m =
      fun_ext (λ j. get_kv-same now k m now j (omega arith)) in
    ap₂ (λ v vs. v ∷ vs) (get_kv-value now k m)
      (get_each-values now ks m1 ∙ ap (λ f. map f ks) later)

pub exists_each-count :
    (now : Time) (ks : List String) (m : Mock)
    → (exists_each now ks m).0 ≡ live_count (value_at now m) ks
unfolding exists_each exists_one live_count
exists_each-count now [] m = refl
exists_each-count now (k ∷ ks) m =
    let m1 = (get_kv now k m).1 in
    let later : value_at now m1 ≡ value_at now m =
      fun_ext (λ j. get_kv-same now k m now j (omega arith)) in
    let rest : (exists_each now ks m1).0 ≡ live_count (value_at now m) ks =
      exists_each-count now ks m1 ∙ ap (λ f. live_count f ks) later in
    ground (arith, get_kv-value now k m, rest)

pub value_at_gone :
    (s t : Time) (m : Mock) (k : String) → s ≤ℤ t → value_at s m k ≡ none → value_at t m k ≡ none
unfolding value_at
value_at_gone s t m k h p = elim (Option-cases (Dict.get m.kv k)) [
  | inl q ↦ ground (arith, q)
  | inr (e, q) ↦ ground (arith, q, expired_mono s t e h)
]

value_at-remove :
    (t : Time) (m : Mock) (k j : String)
    → value_at t (record m { kv = Dict.remove m.kv k }) j
      ≡ (if str_eq k j then none else value_at t m j)
unfolding value_at
value_at-remove t m k j = ground (arith, Dict.get-remove m.kv k j)

pub value_at-put_kv :
    (t : Time) (m : Mock) (k j : String) (e : KvEntry)
    → value_at t (put_kv k e m) j
      ≡ (if str_eq k j then value_of (fresh t (some e)) else value_at t m j)
unfolding value_at put_kv
value_at-put_kv t m k j e = ground (arith, Dict.get-put m.kv k j e)

del_one-value :
    (now t : Time) (k j : String) (m : Mock)
    → now ≤ℤ t
    → value_at t (del_one now k m).1 j ≡ (if str_eq k j then none else value_at t m j)
unfolding del_one
del_one-value now t k j m h =
    let m1 = (get_kv now k m).1 in
    ground (
      arith,
      get_kv-value now k m,
      get_kv-same now k m t j h,
      value_at_gone now t m k h,
      value_at-remove t m1 k j,
      eq_iff k j,
    )

del_one-count :
    (now : Time) (k : String) (m : Mock) → (del_one now k m).0 ≡ is_some (value_at now m k)
unfolding del_one
del_one-count now k m = ground (arith, get_kv-value now k m)

pub del_each-value :
    (now t : Time) (ks : List String) (j : String) (m : Mock)
    → now ≤ℤ t
    → value_at t (del_each now ks m).1 j ≡ (if elem j ks then none else value_at t m j)
unfolding del_each elem
del_each-value now t [] j m h = refl
del_each-value now t (k ∷ ks) j m h =
    ground (arith, del_one-value now t k j m h, del_each-value now t ks j (del_one now k m).1 h)

pub del_each-count :
    (now : Time) (ks : List String) (m : Mock)
    → AllDistinct ks
    → (del_each now ks m).0 ≡ live_count (value_at now m) ks
unfolding del_each live_count
del_each-count now [] m d = refl
del_each-count now (k ∷ ks) m d =
    let m1 = (del_one now k m).1 in
    let same =
      live_count-ext (value_at now m1) (value_at now m) ks
        (λ j e. ground (arith, del_one-value now now k j m (omega arith), d.0, eq_iff k j)) in
    ground (arith, del_one-count now k m, del_each-count now ks m1 d.1, same)
