-- ===== src/Driver/Keys.antt =====
-- The methods of the connection, and of keys, with texts and hashes:
-- sdk/go/internal/driver/goredis/driver.go. A time in seconds is the Duration that it is turned
-- into.
use resilix.Prelude.{String, Bool, Option, List}
use resilix.Prelude.Int.{ℤ, Duration}
use resilix.Dict.{Dict}
use resilix.Mock.{Value}
use resilix.Mock.Stubs.{PoolStats}
use resilix.Contract.{Command}
use resilix.Driver.{normalized}
use resilix.Driver.Redis.{UniversalClient}

module _ {W : Type 0} (r : UniversalClient W) where
  unfoldable pub close : Command W (Unit {0})
  close = r.close

  unfoldable pub ping : Command W (Unit {0})
  ping = normalized r.ping

  unfoldable pub pool_stats : W → PoolStats
  pool_stats w =
      let stats = r.pool_stats w in
      record {
        hits = stats.hits;
        misses = stats.misses;
        timeouts = stats.timeouts;
        total_conns = stats.total_conns;
        idle_conns = stats.idle_conns;
        stale_conns = stats.stale_conns;
      }

  unfoldable pub get : String → Command W String
  get key = normalized (r.get key)

  unfoldable pub set : String → Value → Duration → Command W (Unit {0})
  set key value ttl = normalized (r.set key value ttl)

  unfoldable pub mget : List String → Command W (List (Option String))
  mget keys = normalized (r.mget keys)

  unfoldable pub mset : Dict Value → Command W (Unit {0})
  mset values = normalized (r.mset values)

  unfoldable pub del : List String → Command W ℤ
  del keys = normalized (r.del keys)

  unfoldable pub exists : List String → Command W ℤ
  exists keys = normalized (r.exists keys)

  unfoldable pub expire : String → Duration → Command W Bool
  expire key ttl = normalized (r.expire key ttl)

  unfoldable pub ttl : String → Command W Duration
  ttl key = normalized (r.ttl key)

  unfoldable pub incr : String → Command W ℤ
  incr key = normalized (r.incr key)

  unfoldable pub decr : String → Command W ℤ
  decr key = normalized (r.decr key)

  unfoldable pub hset : String → Dict Value → Command W ℤ
  hset key values = normalized (r.hset key values)

  unfoldable pub hget : String → String → Command W String
  hget key field = normalized (r.hget key field)

  unfoldable pub hget_all : String → Command W (Dict String)
  hget_all key = normalized (r.hget_all key)

  unfoldable pub hmget : String → List String → Command W (List (Option String))
  hmget key fields = normalized (r.hmget key fields)

  unfoldable pub hdel : String → List String → Command W ℤ
  hdel key fields = normalized (r.hdel key fields)
