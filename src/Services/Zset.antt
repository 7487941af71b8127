-- ===== src/Services/Zset.antt =====
-- The service of sorted sets: sortedSetService of sdk/go/services.go.
use resilix.Prelude.{String, List, [], ◌∷◌}
use resilix.Prelude.Int.{ℤ}
use resilix.Mock.{ZMember}
use resilix.Retry.{World}
use resilix.Validation.{first_error, validate_key, validate_key_as, validate_string_slice}
use resilix.Contract.{int, float, zmembers}
use resilix.Services.{Session, Outcome, send, checked, as_int, as_float, as_zmembers}

module _ {E : Type 0} (c : Session E) where
  unfoldable pub add : String → List ZMember → World E → Outcome E ℤ
  add key scored =
      checked c (validate_key key)
        (send c "ZADD" "zset" (key ∷ []) (λ n. int n) (c.backend.zadd key scored) as_int)

  unfoldable pub range : String → ℤ → ℤ → World E → Outcome E (List ZMember)
  range key start stop = checked c (validate_key key) (
      send c "ZRANGE" "zset" (key ∷ []) (λ l. zmembers l) (c.backend.zrange key start stop)
        as_zmembers)

  unfoldable pub rev_range : String → ℤ → ℤ → World E → Outcome E (List ZMember)
  rev_range key start stop = checked c (validate_key key) (
      send c "ZREVRANGE" "zset" (key ∷ []) (λ l. zmembers l) (c.backend.zrev_range key start stop)
        as_zmembers)

  unfoldable pub remove : String → List String → World E → Outcome E ℤ
  remove key members =
      checked c (first_error (validate_key key) (validate_string_slice "members" members))
        (send c "ZREM" "zset" (key ∷ []) (λ n. int n) (c.backend.zrem key members) as_int)

  unfoldable pub score : String → String → World E → Outcome E ℤ
  score key member =
      checked c (first_error (validate_key key) (validate_key_as "member" member))
        (send c "ZSCORE" "zset" (key ∷ []) (λ x. float x) (c.backend.zscore key member) as_float)
