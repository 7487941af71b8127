-- ===== src/Mock/Kv/Counter.antt =====
-- Incr and Decr: numbers kept as text.
use resilix.Prelude.{
  List, [], ◌∷◌, length, ℕ, suc, ◌+◌, ◌<◌, String, ◌≡◌, refl, none, some, arith, if◌then◌else◌,
  eq_refl, str_eq, ◌∙◌, ap,
}
use resilix.Prelude.Int.{ℤ, Time, pos, negsuc, ◌≤ℤ◌, inc64, max_int64}
use resilix.Errors.{ok}
use resilix.Dict
use resilix.Decimal.{format}
use resilix.Decimal.RoundTrip.{scan-format}
use resilix.Mock.{Mock, KvEntry, expired, get_kv}
use resilix.Mock.Injected.{NoError, counted, guarded-body}
use resilix.Mock.Kv.{put_kv, number_in, count_by, incr}
use resilix.Mock.Kv.Views.{value_at, value_at_gone, get_kv-value, get_kv-same, value_at-put_kv}
use resilix.Mock.Kv.Reads.{value_at-counted, get_kv-errors}

-- A number that was stored is read back.
number_in-format :
    (z : ℤ) → z ≤ℤ pos max_int64 → negsuc max_int64 ≤ℤ z → number_in (some (format z)) ≡ z
unfolding number_in
number_in-format z h k = rw (scan-format z h k, number_in)

module _ (op : String) (step : ℤ → ℤ) (now : Time) (k : String) (m : Mock) (h : NoError op m) where
  abbrev next : ℤ
  next = step (number_in (value_at now m k))

  entry : KvEntry
  entry = record { value = format next; expiry = none }

  count_by-state :
      count_by op step now k m ≡ (ok next, put_kv k entry (get_kv now k (counted op m)).1)
  unfolding count_by entry
  count_by-state =
      guarded-body op
        (λ m.
          let n = step (number_in (get_kv now k m).0) in
          (ok n, put_kv k (record { value = format n; expiry = none }) (get_kv now k m).1))
        m h
      ∙ rw (get_kv-value now k (counted op m), value_at-counted op now m k)

  count_by-value :
      (t : Time) (j : String)
      → now ≤ℤ t
      → value_at t (count_by op step now k m).1 j
        ≡ (if str_eq k j then some (format next) else value_at t m j)
  unfolding entry expired
  count_by-value t j le = rw count_by-state (
      value_at-put_kv t (get_kv now k (counted op m)).1 k j entry
      ∙ rw (get_kv-same now k (counted op m) t j le, value_at-counted op t m j))

  count_by-errors : (count_by op step now k m).1.errors ≡ m.errors
  unfolding put_kv
  count_by-errors = rw count_by-state (get_kv-errors now k (counted op m))

-- Each reading is no earlier than the one before it, and the first no earlier than `now`.
abbrev pub Ascending : Time → List Time → Type 0
Ascending now [] = Unit
Ascending now (t ∷ ts) = (now ≤ℤ t) × Ascending t ts

-- One Incr of the key at each of the readings.
pub incr_at : List Time → String → Mock → Mock
incr_at [] k m = m
incr_at (t ∷ ts) k m = incr_at ts k (incr t k m).1

unfoldable pub last_of : Time → List Time → Time
last_of now [] = now
last_of now (t ∷ ts) = last_of t ts

NoError-same : (op : String) (m m' : Mock) → m'.errors ≡ m.errors → NoError op m → NoError op m'
NoError-same op m m' e h =
    (ap (λ d. Dict.get_or d op []) e ∙ h.0, ap (λ d. Dict.get_or d "" []) e ∙ h.1)

inc64-pos : (n : ℕ) → n < max_int64 → inc64 (pos n) ≡ pos (suc n)
unfolding inc64
inc64-pos n h = ground arith

incr_from :
    (n : ℕ) (ts : List Time) (now t : Time) (k : String) (m : Mock)
    → n + length ts < max_int64
    → NoError "Incr" m
    → ((u : Time) → now ≤ℤ u → number_in (value_at u m k) ≡ pos n)
    → Ascending now ts
    → last_of now ts ≤ℤ t
    → (incr t k (incr_at ts k m)).0 ≡ ok (pos (suc (n + length ts)))
unfolding incr incr_at last_of
incr_from n [] now t k m small h num up le =
    rw (count_by-state "Incr" inc64 t k m h, num t le)
      (ap (λ z. ok z) (inc64-pos n (omega arith) ∙ ap (λ (i : ℕ). pos i) (omega arith)))
incr_from n (s ∷ ts) now t k m small h num up le =
    let m' = (count_by "Incr" inc64 s k m).1 in
    let counted_up : next "Incr" inc64 s k m h ≡ pos (suc n) =
      ap inc64 (num s up.0) ∙ inc64-pos n (omega arith) in
    incr_from (suc n) ts s t k m' (omega arith)
      (NoError-same "Incr" m m' (count_by-errors "Incr" inc64 s k m h) h)
      (λ u later.
        rw (count_by-value "Incr" inc64 s k m h u k later, eq_refl k, counted_up)
          (number_in-format (pos (suc n)) (omega arith) (omega arith)))
      up.1 le
    ∙ ap (λ (i : ℕ). ok (pos i)) (omega arith)

-- Increments of a key that has no value count: the one behind n others, at readings of the clock
-- that do not go back, returns n + 1, as long as that is an `int64`. (No error is injected.)
pub incr_counts :
    (ts : List Time) (now t : Time) (k : String) (m : Mock)
    → length ts < max_int64
    → NoError "Incr" m
    → value_at now m k ≡ none
    → Ascending now ts
    → last_of now ts ≤ℤ t
    → (incr t k (incr_at ts k m)).0 ≡ ok (pos (suc (length ts)))
incr_counts ts now t k m small h absent up le =
    incr_from 0 ts now t k m (omega arith) h
      (λ u later. rw (value_at_gone now u m k later absent) (unfold number_in in refl)) up le
    ∙ ap (λ (i : ℕ). ok (pos i)) (omega arith)
