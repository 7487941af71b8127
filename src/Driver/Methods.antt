-- ===== src/Driver/Methods.antt =====
-- The driver as a backend: the methods of Driver in sdk/go/internal/driver/goredis/driver.go that
-- the contract's record has. LMPop and ZMPop, which nothing calls, stand beside it.
use resilix.Contract.{Backend}
use resilix.Options.Universal.{UniversalOptions}
use resilix.Driver.Keys
use resilix.Driver.Data
use resilix.Driver.Messages
use resilix.Driver.Special
use resilix.Driver.Pipelines
use resilix.Driver.Pipelines.{settled}
use resilix.Driver.Redis.{UniversalClient}

unfoldable pub driver : {W : Type 0} → UniversalClient W → Backend W
driver r = record {
  ping = Keys.ping r;
  close = Keys.close r;
  pool_stats = Keys.pool_stats r;
  get = Keys.get r;
  set = Keys.set r;
  mget = Keys.mget r;
  mset = Keys.mset r;
  del = Keys.del r;
  exists = Keys.exists r;
  expire = Keys.expire r;
  ttl = Keys.ttl r;
  incr = Keys.incr r;
  decr = Keys.decr r;
  hset = Keys.hset r;
  hget = Keys.hget r;
  hget_all = Keys.hget_all r;
  hmget = Keys.hmget r;
  hdel = Keys.hdel r;
  lpush = Data.lpush r;
  rpush = Data.rpush r;
  lpop = Data.lpop r;
  rpop = Data.rpop r;
  lrange = Data.lrange r;
  llen = Data.llen r;
  sadd = Data.sadd r;
  srem = Data.srem r;
  smembers = Data.smembers r;
  sismember = Data.sismember r;
  scard = Data.scard r;
  zadd = Data.zadd r;
  zrange = Data.zrange r;
  zrev_range = Data.zrev_range r;
  zrem = Data.zrem r;
  zscore = Data.zscore r;
  publish = Messages.publish r;
  subscribe = Messages.subscribe r;
  xadd = Messages.xadd r;
  xread_group = Messages.xread_group r;
  xack = Messages.xack r;
  xdel = Messages.xdel r;
  xgroup_create_mk_stream = Messages.xgroup_create_mk_stream r;
  eval = Messages.eval r;
  eval_sha = Messages.eval_sha r;
  script_load = Messages.script_load r;
  scan = Messages.scan r;
  pipeline = λ commands w. settled (Pipelines.pipeline r commands w);
  transaction = λ keys commands w. settled (Pipelines.transaction r keys commands w);
  geo_add = Special.geo_add r;
  geo_dist = Special.geo_dist r;
  geo_pos = Special.geo_pos r;
  geo_search = Special.geo_search r;
  pfadd = Special.pfadd r;
  pfcount = Special.pfcount r;
  pfmerge = Special.pfmerge r;
  set_bit = Special.set_bit r;
  get_bit = Special.get_bit r;
  bit_count = Special.bit_count r;
  bit_op = Special.bit_op r;
  bit_pos = Special.bit_pos r;
}

-- `New`, over NewUniversalClient.
unfoldable pub new_driver :
    {W : Type 0} → (UniversalOptions → UniversalClient W) → UniversalOptions → Backend W
unfolding driver
new_driver connect options = driver (connect options)
