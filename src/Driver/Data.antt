-- ===== src/Driver/Data.antt =====
-- The methods of lists, sets and sorted sets: sdk/go/internal/driver/goredis/driver.go.
use resilix.Prelude.{String, Bool, List, [], map, if◌then◌else◌}
use resilix.Errors.{Result, ok, err, is_redis_nil}
use resilix.Prelude.Int.{ℤ}
use resilix.Mock.{Value, ZMember}
use resilix.Contract.{Command}
use resilix.Driver.{normalized, answered, translated, anys, to_z, to_contract_zmembers}
use resilix.Driver.Redis.{UniversalClient}

-- Nothing to pop is no error.
unfoldable pub popped :
    {W A B : Type 0} → (A → List B) → Result (String × A) × W → Result (String × List B) × W
unfolding is_redis_nil translated
popped convert (ok (key, l), w) = (ok (key, convert l), w)
popped convert (err e, w) = if is_redis_nil e then (ok ("", []), w) else (err (translated e), w)

module _ {W : Type 0} (r : UniversalClient W) where
  unfoldable pub lpush : String → List Value → Command W ℤ
  lpush key values = normalized (r.lpush key values)

  unfoldable pub rpush : String → List Value → Command W ℤ
  rpush key values = normalized (r.rpush key values)

  unfoldable pub lpop : String → Command W String
  lpop key = normalized (r.lpop key)

  unfoldable pub rpop : String → Command W String
  rpop key = normalized (r.rpop key)

  unfoldable pub lrange : String → ℤ → ℤ → Command W (List String)
  lrange key start stop = normalized (r.lrange key start stop)

  unfoldable pub llen : String → Command W ℤ
  llen key = normalized (r.llen key)

  unfoldable pub sadd : String → List String → Command W ℤ
  sadd key members = normalized (r.sadd key (anys members))

  unfoldable pub srem : String → List String → Command W ℤ
  srem key members = normalized (r.srem key (anys members))

  unfoldable pub smembers : String → Command W (List String)
  smembers key = normalized (r.smembers key)

  unfoldable pub sismember : String → String → Command W Bool
  sismember key member = normalized (r.sismember key member)

  unfoldable pub scard : String → Command W ℤ
  scard key = normalized (r.scard key)

  unfoldable pub zadd : String → List ZMember → Command W ℤ
  zadd key members = normalized (r.zadd key (map to_z members))

  unfoldable pub zrange : String → ℤ → ℤ → Command W (List ZMember)
  zrange key start stop = λ w. answered to_contract_zmembers (r.zrange_with_scores key start stop w)

  unfoldable pub zrev_range : String → ℤ → ℤ → Command W (List ZMember)
  zrev_range key start stop =
      λ w. answered to_contract_zmembers (r.zrev_range_with_scores key start stop w)

  unfoldable pub zrem : String → List String → Command W ℤ
  zrem key members = normalized (r.zrem key (anys members))

  unfoldable pub zscore : String → String → Command W ℤ
  zscore key member = normalized (r.zscore key member)

  unfoldable pub lmpop : ℤ → String → List String → Command W (String × List String)
  unfolding popped
  lmpop count direction keys w = popped (λ l. l) (r.lmpop direction count keys w)

  unfoldable pub zmpop : ℤ → String → List String → Command W (String × List ZMember)
  unfolding popped
  zmpop count order keys w = popped to_contract_zmembers (r.zmpop order count keys w)
