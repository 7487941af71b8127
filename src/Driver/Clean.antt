-- ===== src/Driver/Clean.antt =====
-- That no method of the driver returns redis.Nil, the client library's error of a key that is not
-- there: sdk/go/internal/driver/goredis/driver.go.
use resilix.Prelude.{◌≡◌, refl, String, Bool, false, Option, none, some, List, [], ◌∷◌, arith}
use resilix.Prelude.Int.{ℤ, Duration}
use resilix.Errors.{Error, Result, ok, err, is_redis_nil}
use resilix.Dict.{Dict}
use resilix.Mock.{Value, ZMember}
use resilix.Mock.Stream.{StreamReadRequest}
use resilix.Mock.Pipeline.{PipelineCommand, CommandResult, Reply}
use resilix.Contract.{Command, Backend, GeoMember, GeoSearchQuery}
use resilix.Driver.{translated, normalize_error, answered}
use resilix.Driver.Redis.{UniversalClient, Cmder}
use resilix.Driver.Pipelines
use resilix.Driver.Pipelines.{
  command_result, extract_value, valued, result_of, to_command_results, reported, settled,
  apply_all, in_watch,
}

-- A result that is not redis.Nil, and has it in no chain.
abbrev pub NoNil {ℓ} : {A : Type ℓ} → Result A → Type 0
NoNil (ok a) = Unit {0}
NoNil (err e) = is_redis_nil e ≡ false

abbrev pub Clean : {W A : Type 0} → Command W A → Type 0
Clean {W} f = (w : W) → NoNil (f w).0

abbrev pub NoneNil : List CommandResult → Type 0
NoneNil [] = Unit {0}
NoneNil (c ∷ cs) = NoNil c.result × NoneNil cs

-- Every result of a run, and its error.
abbrev pub CleanEnd : List CommandResult × Option Error → Type 0
CleanEnd (results, o) = NoneNil results × ((e : Error) → o ≡ some e → is_redis_nil e ≡ false)

-- The methods of a backend, Close and PoolStats aside.
pub record IsClean {W : Type 0} (b : Backend W) : Type 0 where
  pub ping : Clean (b.ping)
  pub get : (key : String) → Clean (b.get key)
  pub set : (key : String) (value : Value) (ttl : Duration) → Clean (b.set key value ttl)
  pub mget : (keys : List String) → Clean (b.mget keys)
  pub mset : (values : Dict Value) → Clean (b.mset values)
  pub del : (keys : List String) → Clean (b.del keys)
  pub exists : (keys : List String) → Clean (b.exists keys)
  pub expire : (key : String) (ttl : Duration) → Clean (b.expire key ttl)
  pub ttl : (key : String) → Clean (b.ttl key)
  pub incr : (key : String) → Clean (b.incr key)
  pub decr : (key : String) → Clean (b.decr key)
  pub hset : (key : String) (values : Dict Value) → Clean (b.hset key values)
  pub hget : (key : String) (field : String) → Clean (b.hget key field)
  pub hget_all : (key : String) → Clean (b.hget_all key)
  pub hmget : (key : String) (fields : List String) → Clean (b.hmget key fields)
  pub hdel : (key : String) (fields : List String) → Clean (b.hdel key fields)
  pub lpush : (key : String) (values : List Value) → Clean (b.lpush key values)
  pub rpush : (key : String) (values : List Value) → Clean (b.rpush key values)
  pub lpop : (key : String) → Clean (b.lpop key)
  pub rpop : (key : String) → Clean (b.rpop key)
  pub lrange : (key : String) (start : ℤ) (stop : ℤ) → Clean (b.lrange key start stop)
  pub llen : (key : String) → Clean (b.llen key)
  pub sadd : (key : String) (members : List String) → Clean (b.sadd key members)
  pub srem : (key : String) (members : List String) → Clean (b.srem key members)
  pub smembers : (key : String) → Clean (b.smembers key)
  pub sismember : (key : String) (member : String) → Clean (b.sismember key member)
  pub scard : (key : String) → Clean (b.scard key)
  pub zadd : (key : String) (members : List ZMember) → Clean (b.zadd key members)
  pub zrange : (key : String) (start : ℤ) (stop : ℤ) → Clean (b.zrange key start stop)
  pub zrev_range : (key : String) (start : ℤ) (stop : ℤ) → Clean (b.zrev_range key start stop)
  pub zrem : (key : String) (members : List String) → Clean (b.zrem key members)
  pub zscore : (key : String) (member : String) → Clean (b.zscore key member)
  pub publish : (channel : String) (payload : Value) → Clean (b.publish channel payload)
  pub subscribe : (channels : List String) → Clean (b.subscribe channels)
  pub xadd :
      (stream : String) (values : Dict Value) (max_len : ℤ) (approximate : Bool)
      → Clean (b.xadd stream values max_len approximate)
  pub xread_group : (request : StreamReadRequest) → Clean (b.xread_group request)
  pub xack :
      (stream : String) (group : String) (ids : List String) → Clean (b.xack stream group ids)
  pub xdel : (stream : String) (ids : List String) → Clean (b.xdel stream ids)
  pub xgroup_create_mk_stream :
      (stream : String) (group : String) (start : String)
      → Clean (b.xgroup_create_mk_stream stream group start)
  pub eval :
      (script : String) (keys : List String) (args : List Value) → Clean (b.eval script keys args)
  pub eval_sha :
      (sha : String) (keys : List String) (args : List Value) → Clean (b.eval_sha sha keys args)
  pub script_load : (script : String) → Clean (b.script_load script)
  pub pipeline : (commands : List PipelineCommand) → Clean (b.pipeline commands)
  pub transaction :
      (keys : List String) (commands : List PipelineCommand) → Clean (b.transaction keys commands)
  pub geo_add : (key : String) (members : List GeoMember) → Clean (b.geo_add key members)
  pub geo_dist :
      (key : String) (member1 : String) (member2 : String) (unit : String)
      → Clean (b.geo_dist key member1 member2 unit)
  pub geo_pos : (key : String) (members : List String) → Clean (b.geo_pos key members)
  pub geo_search : (key : String) (query : GeoSearchQuery) → Clean (b.geo_search key query)
  pub pfadd : (key : String) (elements : List Value) → Clean (b.pfadd key elements)
  pub pfcount : (keys : List String) → Clean (b.pfcount keys)
  pub pfmerge : (dest : String) (keys : List String) → Clean (b.pfmerge dest keys)
  pub set_bit : (key : String) (offset : ℤ) (value : ℤ) → Clean (b.set_bit key offset value)
  pub get_bit : (key : String) (offset : ℤ) → Clean (b.get_bit key offset)
  pub bit_count : (key : String) (start : ℤ) (end_ : ℤ) → Clean (b.bit_count key start end_)
  pub bit_op : (op : String) (dest : String) (keys : List String) → Clean (b.bit_op op dest keys)
  pub bit_pos : (key : String) (bit : ℤ) (span : List ℤ) → Clean (b.bit_pos key bit span)

pub translated-NoNil : (e : Error) → is_redis_nil (translated e) ≡ false
unfolding translated is_redis_nil
translated-NoNil e = ground arith

pub answered-NoNil {ℓ} :
    {W : Type 0} {A B : Type ℓ} (f : A → B) (r : Result A × W) → NoNil (answered f r).0
unfolding answered
answered-NoNil f (ok a, w) = tt
answered-NoNil f (err e, w) = translated-NoNil e

normalize-NoNil :
    (o : Option Error) (e : Error) → normalize_error o ≡ some e → is_redis_nil e ≡ false
unfolding normalize_error
normalize-NoNil none e h = ground arith
normalize-NoNil (some x) e h = ground (arith, translated-NoNil x, h)

valued-NoNil :
    (value : Reply) (o : Option Error)
    → ((e : Error) → o ≡ some e → is_redis_nil e ≡ false)
    → NoNil (valued value o)
unfolding valued
valued-NoNil value none h = tt
valued-NoNil value (some e) h = h e refl

result_of-NoNil : (c : Cmder) → NoNil (result_of c)
unfolding result_of
result_of-NoNil c =
    valued-NoNil (extract_value c.val) (normalize_error c.err) (normalize-NoNil c.err)

results-NoneNil :
    (commands : List PipelineCommand) (executed : List Cmder)
    → NoneNil (to_command_results commands executed)
unfolding to_command_results command_result is_redis_nil
results-NoneNil [] executed = tt
results-NoneNil (c ∷ cs) [] = (refl, results-NoneNil cs [])
results-NoneNil (c ∷ cs) (x ∷ xs) = (result_of-NoNil x, results-NoneNil cs xs)

reported-CleanEnd :
    {W : Type 0} (commands : List PipelineCommand) (x : (List Cmder × Option Error) × W)
    → CleanEnd (reported commands x).0
unfolding reported
reported-CleanEnd commands ((executed, o), w) =
    (results-NoneNil commands executed, normalize-NoNil o)

pub settled-NoNil :
    {W : Type 0} (x : (List CommandResult × Option Error) × W) → CleanEnd x.0 → NoNil (settled x).0
unfolding settled
settled-NoNil ((results, none), w) h = tt
settled-NoNil ((results, some e), w) (h, h') = h' e refl

module _ {W : Type 0} (r : UniversalClient W) where
  pub pipeline-CleanEnd :
      (commands : List PipelineCommand) (w : W) → CleanEnd (Pipelines.pipeline r commands w).0
  unfolding Pipelines.pipeline
  pipeline-CleanEnd commands w =
      reported-CleanEnd {W = W} commands (r.pipelined (apply_all commands) w)

  pub transaction-CleanEnd :
      (keys : List String) (commands : List PipelineCommand) (w : W)
      → CleanEnd (Pipelines.transaction r keys commands w).0
  unfolding Pipelines.transaction
  transaction-CleanEnd [] commands w =
      reported-CleanEnd {W = W} commands (r.tx_pipelined (apply_all commands) w)
  transaction-CleanEnd (key ∷ keys) commands w =
      let ((e, executed), w1) = r.watch (in_watch r commands) (key ∷ keys) w in
      reported-CleanEnd {W = W} commands ((executed, e), w1)
