-- ===== src/Mock/Hash.antt =====
-- Hashes: HSet to HDel of sdk/go/resilixtest/mock.go.
pub mod Fields
use resilix.Prelude.{ℕ, suc, ◌+◌, String, Option, none, some, List, [], ◌∷◌, map}
use resilix.Errors.{Result, ok, err, key_not_found}
use resilix.Dict
use resilix.Dict.{Dict}
use resilix.Mock.{Mock, Value, sprint, guarded}

-- 1 for a key that the map does not have.
unfoldable pub fresh_field {ℓ} : {V : Type ℓ} → Dict V → String → ℕ
fresh_field h f = elim (Dict.get h f) [ none ↦ 1 | some v ↦ 0 ]

unfoldable pub hset_each : List (String × Value) → Dict String → ℕ × Dict String
unfolding fresh_field
hset_each [] h = (0, h)
hset_each ((f, v) ∷ l) h =
    let (added, h') = hset_each l (Dict.put h f (sprint v)) in (fresh_field h f + added, h')

unfoldable pub hset : String → Dict Value → Mock → Result ℕ × Mock
unfolding hset_each
hset key values = guarded "HSet" λ m.
    let (added, h) = hset_each values.entries (Dict.get_or m.hashes key Dict.empty) in
    (ok added, record m { hashes = Dict.put m.hashes key h })

unfoldable pub hget : String → String → Mock → Result String × Mock
hget key field = guarded "HGet" λ m. (
  elim (Dict.get (Dict.get_or m.hashes key Dict.empty) field) [
    | none ↦ err key_not_found
    | some v ↦ ok v
  ],
  m,
)

unfoldable pub hget_all : String → Mock → Result (Dict String) × Mock
hget_all key = guarded "HGetAll" λ m. (ok (Dict.get_or m.hashes key Dict.empty), m)

unfoldable pub hmget : String → List String → Mock → Result (List (Option String)) × Mock
hmget key fields =
    guarded "HMGet"
      λ m. (ok (map (λ f. Dict.get (Dict.get_or m.hashes key Dict.empty) f) fields), m)

unfoldable pub hdel_each : List String → Dict String → ℕ × Dict String
hdel_each [] h = (0, h)
hdel_each (f ∷ fs) h =
    let (count, h') = hdel_each fs (Dict.remove h f) in
    (elim (Dict.get h f) [ none ↦ count | some v ↦ suc count ], h')

-- Of a key with no hash nothing is deleted, and none is made.
unfoldable pub hdel : String → List String → Mock → Result ℕ × Mock
unfolding hdel_each
hdel key fields = guarded "HDel" λ m. elim (Dict.get m.hashes key) [
  | none ↦ (ok 0, m)
  | some h ↦
      (let (count, h') = hdel_each fields h in
        (ok count, record m { hashes = Dict.put m.hashes key h' }))
]
