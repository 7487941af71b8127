-- ===== src/Mock/Kv/Refinement.antt =====
-- The commands on keys of sdk/go/resilixtest/mock.go against a store that never drops an entry: it
-- is a function of the key, and an entry whose time is over is only not seen.
pub mod Replay
pub mod Loops
pub mod Runs
mod Tests
use resilix.Prelude.{
  ℕ, ◌+◌, String, ◌≡◌, refl, sym, ap, ap₂, ◌∙◌, Bool, true, false, Option, none, some, List, [],
  ◌∷◌, map, arith, if◌then◌else◌, eq_refl, eq_iff, str_eq, Option-cases, inl, inr,
}
use resilix.Prelude.Int.{ℤ, pos, Time, Duration, ◌≤ℤ◌, ◌+ℤ◌, inc64, dec64}
use resilix.Errors.{Result, ok, err}
use resilix.Dict
use resilix.Decimal.{format}
use resilix.Mock.{Mock, KvEntry, Value, expired, get_kv}
use resilix.Mock.Kv.{
  get, set, mget, del, exists, expire, ttl, incr, decr, put_kv, new_entry, get_each, del_one,
  del_each, exists_each, exists_one, expire_entry, ttl_of, count_by, number_in, found,
}
use resilix.Mock.Kv.Views.{fresh, value_of, is_some, expired_mono}
use resilix.Mock.Kv.Reads.{reading}

abbrev pub Store : Type 0
Store = String → Option KvEntry

unfoldable pub assign : Store → String → Option KvEntry → Store
assign s k o j = if str_eq k j then o else s j

-- From a time on, what is seen in the mock is what is seen in the store.
abbrev pub Refines : Time → Mock → Store → Type 0
Refines now m s = (t : Time) (j : String) → now ≤ℤ t → fresh t (Dict.get m.kv j) ≡ fresh t (s j)

pub Refines-later :
    (now t : Time) (m : Mock) (s : Store) → now ≤ℤ t → Refines now m s → Refines t m s
Refines-later now t m s le r u j h = r u j (omega arith)

pub fresh_gone :
    (now t : Time) (o : Option KvEntry) → now ≤ℤ t → fresh now o ≡ none → fresh t o ≡ none
fresh_gone now t none le h = refl
fresh_gone now t (some e) le h = ground (arith, expired_mono now t e le, h)

pub get_kv-seen :
    (now : Time) (k : String) (m : Mock) (s : Store)
    → Refines now m s
    → (get_kv now k m).0 ≡ value_of (fresh now (s k))
unfolding get_kv
get_kv-seen now k m s r = ground (arith, r now k)

pub get_kv-Refines :
    (now : Time) (k : String) (m : Mock) (s : Store)
    → Refines now m s
    → Refines now (get_kv now k m).1 s
unfolding get_kv
get_kv-Refines now k m s r t j le = elim (Option-cases (Dict.get m.kv k)) [
  | inl p ↦ ground (arith, p, r t j le)
  | inr (e, p) ↦
      ground (arith, p, expired_mono now t e le, Dict.get-remove m.kv k j, eq_iff k j, r t j le)
]

pub put_kv-Refines :
    (now : Time) (k : String) (e : KvEntry) (m : Mock) (s : Store)
    → Refines now m s
    → Refines now (put_kv k e m) (assign s k (some e))
unfolding put_kv assign
put_kv-Refines now k e m s r t j le = ground (arith, Dict.get-put m.kv k j e, r t j le)

pub del_one-Refines :
    (now : Time) (k : String) (m : Mock) (s : Store)
    → Refines now m s
    → ((del_one now k m).0 ≡ is_some (value_of (fresh now (s k))))
      × Refines now (del_one now k m).1 (assign s k none)
unfolding del_one assign
del_one-Refines now k m s r =
    let m1 = (get_kv now k m).1 in
    let kept = get_kv-Refines now k m s r in
    let same = get_kv-seen now k m s r in
    (
      ground (arith, same),
      λ t j le. ground (
        arith,
        same,
        kept t j le,
        fresh_gone now t (s k) le,
        eq_iff k j,
        Dict.get-remove m1.kv k j,
      ),
    )
