-- ===== src/Driver/Hidden.antt =====
-- The proof, method by method, that the driver hides redis.Nil:
-- sdk/go/internal/driver/goredis/driver.go.
use resilix.Prelude.{ℕ, refl, String, true, false, List, [], ◌∷◌, Bool, if◌then◌else◌}
use resilix.Prelude.Int.{ℤ}
use resilix.Errors.{Result, ok, err, contains, codes, message, is_word, is_redis_nil}
use resilix.Mock.Pipeline.{PipelineCommand}
use resilix.Driver.{translated, to_contract_zmembers}
use resilix.Driver.Redis.{UniversalClient}
use resilix.Driver.Keys
use resilix.Driver.Data
use resilix.Driver.Data.{popped}
use resilix.Driver.Messages
use resilix.Driver.Messages.{created}
use resilix.Driver.Special
use resilix.Driver.Special.{negated}
use resilix.Driver.Pipelines
use resilix.Driver.Methods.{driver}
use resilix.Driver.Clean.{
  NoNil, Clean, CleanEnd, IsClean, translated-NoNil, answered-NoNil, settled-NoNil,
  pipeline-CleanEnd, transaction-CleanEnd,
}

either-NoNil {ℓ} :
    {W : Type 0} {A : Type ℓ} (b : Bool) (x y : Result A × W)
    → NoNil x.0
    → NoNil y.0
    → NoNil (if b then x else y).0
either-NoNil true x y h h' = h
either-NoNil false x y h h' = h'

popped-NoNil :
    {W A B : Type 0} (f : A → List B) (r : Result (String × A) × W) → NoNil (popped f r).0
unfolding popped
popped-NoNil f (ok (key, l), w) = tt
popped-NoNil f (err e, w) =
    either-NoNil (is_redis_nil e) (ok ("", []), w) (err (translated e), w) tt (translated-NoNil e)

created-NoNil : {W : Type 0} (r : Result (Unit {0}) × W) → NoNil (created r).0
unfolding created
created-NoNil (ok u, w) = tt
created-NoNil (err e, w) =
    either-NoNil (contains (codes "BUSYGROUP") (message e)) (ok tt, w) (err (translated e), w) tt
      (translated-NoNil e)

module _ {W : Type 0} (r : UniversalClient W) where
  negated-Clean : (dest : String) (keys : List String) → Clean (negated r dest keys)
  unfolding negated is_redis_nil
  negated-Clean dest [] w = refl
  negated-Clean dest (key ∷ keys) w = answered-NoNil (λ a. a) (r.bit_op_not dest key w)

  bit_op-Clean : (op dest : String) (keys : List String) → Clean (Special.bit_op r op dest keys)
  unfolding Special.bit_op is_redis_nil
  bit_op-Clean op dest keys w =
      either-NoNil (is_word "AND" op) _ _ (answered-NoNil (λ a. a) (r.bit_op_and dest keys w)) (
        either-NoNil (is_word "OR" op) _ _ (answered-NoNil (λ a. a) (r.bit_op_or dest keys w)) (
          either-NoNil (is_word "XOR" op) _ _ (answered-NoNil (λ a. a) (r.bit_op_xor dest keys w))
            (either-NoNil (is_word "NOT" op) _ _ (negated-Clean dest keys w) refl)))

  bit_pos-Clean : (key : String) (bit : ℤ) (span : List ℤ) → Clean (Special.bit_pos r key bit span)
  unfolding Special.bit_pos
  bit_pos-Clean key bit [] w = answered-NoNil _ _
  bit_pos-Clean key bit (start ∷ []) w = answered-NoNil _ _
  bit_pos-Clean key bit (start ∷ end_ ∷ more) w = answered-NoNil _ _

driver-IsClean : {W : Type 0} (r : UniversalClient W) → IsClean (driver r)
unfolding driver Keys.ping Keys.get Keys.set Keys.mget Keys.mset Keys.del Keys.exists Keys.expire
    Keys.ttl Keys.incr Keys.decr Keys.hset Keys.hget Keys.hget_all Keys.hmget Keys.hdel Data.lpush
    Data.rpush Data.lpop Data.rpop Data.lrange Data.llen Data.sadd Data.srem Data.smembers
    Data.sismember Data.scard Data.zadd Data.zrange Data.zrev_range Data.zrem Data.zscore
    Messages.publish Messages.subscribe Messages.xadd Messages.xread_group Messages.xack
    Messages.xdel Messages.xgroup_create_mk_stream Messages.eval Messages.eval_sha
    Messages.script_load Pipelines.pipeline Pipelines.transaction Special.geo_add Special.geo_dist
    Special.geo_pos Special.geo_search Special.pfadd Special.pfcount Special.pfmerge Special.set_bit
    Special.get_bit Special.bit_count Special.bit_op Special.bit_pos
driver-IsClean r = record {
  ping = λ w. answered-NoNil _ _;
  get = λ key w. answered-NoNil _ _;
  set = λ key value ttl w. answered-NoNil _ _;
  mget = λ keys w. answered-NoNil _ _;
  mset = λ values w. answered-NoNil _ _;
  del = λ keys w. answered-NoNil _ _;
  exists = λ keys w. answered-NoNil _ _;
  expire = λ key ttl w. answered-NoNil _ _;
  ttl = λ key w. answered-NoNil _ _;
  incr = λ key w. answered-NoNil _ _;
  decr = λ key w. answered-NoNil _ _;
  hset = λ key values w. answered-NoNil _ _;
  hget = λ key field w. answered-NoNil _ _;
  hget_all = λ key w. answered-NoNil _ _;
  hmget = λ key fields w. answered-NoNil _ _;
  hdel = λ key fields w. answered-NoNil _ _;
  lpush = λ key values w. answered-NoNil _ _;
  rpush = λ key values w. answered-NoNil _ _;
  lpop = λ key w. answered-NoNil _ _;
  rpop = λ key w. answered-NoNil _ _;
  lrange = λ key start stop w. answered-NoNil _ _;
  llen = λ key w. answered-NoNil _ _;
  sadd = λ key members w. answered-NoNil _ _;
  srem = λ key members w. answered-NoNil _ _;
  smembers = λ key w. answered-NoNil _ _;
  sismember = λ key member w. answered-NoNil _ _;
  scard = λ key w. answered-NoNil _ _;
  zadd = λ key members w. answered-NoNil _ _;
  zrange = λ key start stop w. answered-NoNil _ _;
  zrev_range = λ key start stop w. answered-NoNil _ _;
  zrem = λ key members w. answered-NoNil _ _;
  zscore = λ key member w. answered-NoNil _ _;
  publish = λ channel payload w. answered-NoNil _ _;
  subscribe = λ channels w. answered-NoNil _ _;
  xadd = λ stream values max_len approximate w. answered-NoNil _ _;
  xread_group = λ request w. answered-NoNil _ _;
  xack = λ stream group ids w. answered-NoNil _ _;
  xdel = λ stream ids w. answered-NoNil _ _;
  xgroup_create_mk_stream =
      λ stream group start w. created-NoNil (r.xgroup_create_mk_stream stream group start w);
  eval = λ script keys args w. answered-NoNil _ _;
  eval_sha = λ sha keys args w. answered-NoNil _ _;
  script_load = λ script w. answered-NoNil _ _;
  pipeline = λ commands w. settled-NoNil _ (pipeline-CleanEnd r commands w);
  transaction = λ keys commands w. settled-NoNil _ (transaction-CleanEnd r keys commands w);
  geo_add = λ key members w. answered-NoNil _ _;
  geo_dist = λ key member1 member2 unit w. answered-NoNil _ _;
  geo_pos = λ key members w. answered-NoNil _ _;
  geo_search = λ key query w. answered-NoNil _ _;
  pfadd = λ key elements w. answered-NoNil _ _;
  pfcount = λ keys w. answered-NoNil _ _;
  pfmerge = λ dest keys w. answered-NoNil _ _;
  set_bit = λ key offset value w. answered-NoNil _ _;
  get_bit = λ key offset w. answered-NoNil _ _;
  bit_count = λ key start end_ w. answered-NoNil _ _;
  bit_op = λ op dest keys w. bit_op-Clean r op dest keys w;
  bit_pos = λ key bit span w. bit_pos-Clean r key bit span w;
}

popped_Clean :
    {W : Type 0} (r : UniversalClient W) (count : ℤ) (by : String) (keys : List String)
    → Clean (Data.lmpop r count by keys) × Clean (Data.zmpop r count by keys)
unfolding Data.lmpop Data.zmpop
popped_Clean r count by keys = (
  λ w. popped-NoNil (λ l. l) (r.lmpop by count keys w),
  λ w. popped-NoNil to_contract_zmembers (r.zmpop by count keys w),
)

-- Every method of the driver but Close and PoolStats; and the runs of pipelines and transactions
-- with the results that are returned beside an error.
abbrev pub HidesNil : {W : Type 0} → UniversalClient W → Type 0
HidesNil {W} r =
    IsClean (driver r)
    × ((count : ℤ) (by : String) (keys : List String)
        → Clean (Data.lmpop r count by keys) × Clean (Data.zmpop r count by keys))
    × ((cursor : ℕ) (pattern : String) (count : ℤ) → Clean (Messages.scan r cursor pattern count))
    × ((commands : List PipelineCommand) (w : W) → CleanEnd (Pipelines.pipeline r commands w).0)
    × ((keys : List String) (commands : List PipelineCommand) (w : W)
        → CleanEnd (Pipelines.transaction r keys commands w).0)

-- Whatever the client library answers, no method of the driver but Close returns redis.Nil, or an
-- error with redis.Nil in its chain; nor does a result of a pipeline or of a transaction have one,
-- those that are returned beside an error included.
pub driver-HidesNil : {W : Type 0} (r : UniversalClient W) → HidesNil r
unfolding Messages.scan
driver-HidesNil r = (
  driver-IsClean r,
  popped_Clean r,
  λ cursor pattern count w. answered-NoNil (λ a. a) (r.scan cursor pattern count w),
  pipeline-CleanEnd r,
  transaction-CleanEnd r,
)
