-- ===== src/Mock/Kv.antt =====
-- Keys with text values: Get to Decr of sdk/go/resilixtest/mock.go. A command reads the clock once,
-- where the source may read it for each key.
pub mod Views
pub mod Reads
pub mod Counter
pub mod Refinement
use resilix.Prelude.{
  ℕ, suc, ◌+◌, String, Bool, true, false, ◌&&◌, ◌||◌, not, Option, none, some, List, [], ◌∷◌, ◌++◌,
  if◌then◌else◌,
}
use resilix.Prelude.Int.{ℤ, pos, negsuc, Time, Duration, ltb_ℤ, ◌+ℤ◌, ◌-ℤ◌, inc64, dec64}
use resilix.Errors.{Error, Result, ok, err, key_not_found}
use resilix.Dict
use resilix.Dict.{Dict}
use resilix.Decimal.{format, scan}
use resilix.Mock.{Mock, KvEntry, Value, sprint, expired, guarded, get_kv}

-- `m.kv[key] = entry`
unfoldable pub put_kv : String → KvEntry → Mock → Mock
put_kv key e m = record m { kv = Dict.put m.kv key e }

pub found : Option String × Mock → Result String × Mock
found (none, m) = (err key_not_found, m)
found (some v, m) = (ok v, m)

unfoldable pub get : Time → String → Mock → Result String × Mock
unfolding found
get now key = guarded "Get" (λ m. found (get_kv now key m))

-- The entry that Set writes: a time to live that is not positive leaves it without an expiry.
unfoldable pub new_entry : Time → Value → Duration → KvEntry
new_entry now value ttl = record {
  value = sprint value;
  expiry = if ltb_ℤ (pos 0) ttl then some (now +ℤ ttl) else none;
}

unfoldable pub set : Time → String → Value → Duration → Mock → Result (Unit {0}) × Mock
unfolding put_kv new_entry
set now key value ttl = guarded "Set" λ m. (ok tt, put_kv key (new_entry now value ttl) m)

-- The loop of MGet: `none` is the nil of a key that is not there.
unfoldable pub get_each : Time → List String → Mock → List (Option String) × Mock
get_each now [] m = ([], m)
get_each now (k ∷ ks) m =
    let (v, m1) = get_kv now k m in let (vs, m2) = get_each now ks m1 in (v ∷ vs, m2)

unfoldable pub mget : Time → List String → Mock → Result (List (Option String)) × Mock
unfolding get_each
mget now keys = guarded "MGet" λ m. let (vs, m') = get_each now keys m in (ok vs, m')

unfoldable pub put_each : List (String × Value) → Mock → Mock
unfolding put_kv
put_each [] m = m
put_each ((k, v) ∷ l) m = put_each l (put_kv k (record { value = sprint v; expiry = none }) m)

unfoldable pub mset : Dict Value → Mock → Result (Unit {0}) × Mock
unfolding put_each
mset values = guarded "MSet" λ m. (ok tt, put_each values.entries m)

-- One round of the loop of Del, and of the loop of Exists.
unfoldable pub del_one : Time → String → Mock → ℕ × Mock
del_one now k m =
    let (v, m') = get_kv now k m in
    elim v [ none ↦ (0, m') | some x ↦ (1, record m' { kv = Dict.remove m'.kv k }) ]

unfoldable pub del_each : Time → List String → Mock → ℕ × Mock
unfolding del_one
del_each now [] m = (0, m)
del_each now (k ∷ ks) m =
    let (n, m1) = del_one now k m in let (rest, m2) = del_each now ks m1 in (n + rest, m2)

unfoldable pub del : Time → List String → Mock → Result ℕ × Mock
unfolding del_each
del now keys = guarded "Del" λ m. let (n, m') = del_each now keys m in (ok n, m')

unfoldable pub exists_one : Time → String → Mock → ℕ × Mock
exists_one now k m = let (v, m') = get_kv now k m in elim v [ none ↦ (0, m') | some x ↦ (1, m') ]

unfoldable pub exists_each : Time → List String → Mock → ℕ × Mock
unfolding exists_one
exists_each now [] m = (0, m)
exists_each now (k ∷ ks) m =
    let (n, m1) = exists_one now k m in let (rest, m2) = exists_each now ks m1 in (n + rest, m2)

unfoldable pub exists : Time → List String → Mock → Result ℕ × Mock
unfolding exists_each
exists now keys = guarded "Exists" λ m. let (n, m') = exists_each now keys m in (ok n, m')

unfoldable pub expire_entry : Time → String → Duration → Option KvEntry → Mock → Result Bool × Mock
unfolding put_kv
expire_entry now key ttl none m = (ok false, m)
expire_entry now key ttl (some e) m =
    if expired now e
    then (ok false, m)
    else (ok true, put_kv key (record e { expiry = some (now +ℤ ttl) }) m)

unfoldable pub expire : Time → String → Duration → Mock → Result Bool × Mock
unfolding expire_entry
expire now key ttl = guarded "Expire" λ m. expire_entry now key ttl (Dict.get m.kv key) m

-- -2 and -1 seconds.
abbrev pub no_key : Duration
no_key = negsuc 1999999999

abbrev pub no_expiry : Duration
no_expiry = negsuc 999999999

unfoldable pub ttl_of : Time → Option KvEntry → Duration
ttl_of now none = no_key
ttl_of now (some e) =
    if expired now e then no_key else elim e.expiry [ none ↦ no_expiry | some t ↦ t -ℤ now ]

unfoldable pub ttl : Time → String → Mock → Result Duration × Mock
unfolding ttl_of
ttl now key = guarded "TTL" λ m. (ok (ttl_of now (Dict.get m.kv key)), m)

-- The number in a value that is there and can be read, else 0.
unfoldable pub number_in : Option String → ℤ
number_in none = pos 0
number_in (some s) = elim (scan s) [ none ↦ pos 0 | some n ↦ n ]

-- `Incr` and `Decr` differ in the operation's name and in the step. The entry that they write has
-- no expiry.
unfoldable pub count_by : String → (ℤ → ℤ) → Time → String → Mock → Result ℤ × Mock
unfolding put_kv number_in
count_by op step now key = guarded op λ m.
    let (v, m') = get_kv now key m in
    let n = step (number_in v) in (ok n, put_kv key (record { value = format n; expiry = none }) m')

unfoldable pub incr : Time → String → Mock → Result ℤ × Mock
unfolding count_by
incr = count_by "Incr" inc64

unfoldable pub decr : Time → String → Mock → Result ℤ × Mock
unfolding count_by
decr = count_by "Decr" dec64
