-- ===== src/Driver/Redis.antt =====
-- The client of github.com/redis/go-redis that sdk/go/internal/driver/goredis/driver.go calls: its
-- types, and its commands as functions of the state around it. A command's value is left out where
-- it returns an error. The code of the client is not in the repository.
use resilix.Prelude.{ℕ, String, Bool, Option, List}
use resilix.Prelude.Int.{ℤ, Duration}
use resilix.Errors.{Error}
use resilix.Dict.{Dict}
use resilix.Mock.{Value}
use resilix.Mock.Stubs.{PoolStats}
use resilix.Contract.{Any, Command}

pub record Z : Type 0 where
  pub score : ℤ
  pub member : Value

pub record XMessage : Type 0 where
  pub id : String
  pub values : Dict Value

pub record XStream : Type 0 where
  pub stream : String
  pub messages : List XMessage

pub record XAddArgs : Type 0 where
  pub stream : String
  pub max_len : ℤ
  pub approx : Bool
  pub values : Dict Value

pub record XReadGroupArgs : Type 0 where
  pub group : String
  pub consumer : String
  pub streams : List String
  pub count : ℤ
  pub block : Duration
  pub no_ack : Bool

pub record GeoLocation : Type 0 where
  pub name : String
  pub longitude : ℤ
  pub latitude : ℤ
  pub dist : ℤ
  pub geo_hash : ℤ

pub record GeoPos : Type 0 where
  pub longitude : ℤ
  pub latitude : ℤ

pub record SearchQuery : Type 0 where
  pub member : String
  pub longitude : ℤ
  pub latitude : ℤ
  pub radius : ℤ
  pub radius_unit : String
  pub box_width : ℤ
  pub box_height : ℤ
  pub box_unit : String
  pub sort : String
  pub count : ℤ
  pub count_any : Bool

pub record SearchLocationQuery : Type 0 where
  pub query : SearchQuery
  pub with_coord : Bool
  pub with_dist : Bool

pub record Received : Type 0 where
  pub channel : String
  pub pattern : String
  pub payload : String

-- A call on a Pipeliner, which queues a command.
pub data Queued : Type 0 where
  pipe_set : String → Value → Duration → Queued
  pipe_get : String → Queued
  pipe_del : List String → Queued
  pipe_incr : String → Queued
  pipe_decr : String → Queued
  pipe_expire : String → Duration → Queued
  pipe_hset : String → Dict Value → Queued
  pipe_sadd : String → List Value → Queued
  pipe_zadd : String → List Z → Queued
  pipe_xadd : XAddArgs → Queued
  pipe_mset : Dict Value → Queued

-- The type of a Cmder that has run, with `Val()`, or with `String()` for the other types.
pub data Val : Type 0 where
  status_cmd : String → Val
  string_cmd : String → Val
  int_cmd : ℤ → Val
  bool_cmd : Bool → Val
  duration_cmd : Duration → Val
  float_cmd : ℤ → Val
  string_slice_cmd : List String → Val
  map_string_string_cmd : Dict String → Val
  zslice_cmd : List Z → Val
  slice_cmd : List (Option String) → Val
  other_cmd : String → Val

pub record Cmder : Type 0 where
  pub val : Val
  pub err : Option Error

-- The function that is given to Pipelined: what it adds to the queue, and its error.
abbrev pub Body : Type 0
Body = List Queued → Option Error × List Queued

-- `([]Cmder, error)`.
abbrev pub Executed : Type 0 → Type 0
Executed W = (List Cmder × Option Error) × W

-- `watch` runs its function between the watch of the keys and its end; what the function assigns to
-- the variable `executed` around it is passed along.
pub record UniversalClient (W : Type 0) : Type 0 where
  pub ping : Command W (Unit {0})
  pub close : Command W (Unit {0})
  pub pool_stats : W → PoolStats
  pub get : String → Command W String
  pub set : String → Value → Duration → Command W (Unit {0})
  pub mget : List String → Command W (List (Option String))
  pub mset : Dict Value → Command W (Unit {0})
  pub del : List String → Command W ℤ
  pub exists : List String → Command W ℤ
  pub expire : String → Duration → Command W Bool
  pub ttl : String → Command W Duration
  pub incr : String → Command W ℤ
  pub decr : String → Command W ℤ
  pub hset : String → Dict Value → Command W ℤ
  pub hget : String → String → Command W String
  pub hget_all : String → Command W (Dict String)
  pub hmget : String → List String → Command W (List (Option String))
  pub hdel : String → List String → Command W ℤ
  pub lpush : String → List Value → Command W ℤ
  pub rpush : String → List Value → Command W ℤ
  pub lpop : String → Command W String
  pub rpop : String → Command W String
  pub lrange : String → ℤ → ℤ → Command W (List String)
  pub llen : String → Command W ℤ
  pub sadd : String → List Value → Command W ℤ
  pub srem : String → List Value → Command W ℤ
  pub smembers : String → Command W (List String)
  pub sismember : String → String → Command W Bool
  pub scard : String → Command W ℤ
  pub zadd : String → List Z → Command W ℤ
  pub zrange_with_scores : String → ℤ → ℤ → Command W (List Z)
  pub zrev_range_with_scores : String → ℤ → ℤ → Command W (List Z)
  pub zrem : String → List Value → Command W ℤ
  pub zscore : String → String → Command W ℤ
  pub publish : String → Value → Command W ℤ
  pub subscribe : List String → W → ℕ × W
  pub pubsub_ping : ℕ → Command W (Unit {0})
  pub pubsub_close : ℕ → Command W (Unit {0})
  pub xadd : XAddArgs → Command W String
  pub xread_group : XReadGroupArgs → Command W (List XStream)
  pub xack : String → String → List String → Command W ℤ
  pub xdel : String → List String → Command W ℤ
  pub xgroup_create_mk_stream : String → String → String → Command W (Unit {0})
  pub eval : String → List String → List Value → Command W Any
  pub eval_sha : String → List String → List Value → Command W Any
  pub script_load : String → Command W String
  pub pipelined : Body → W → Executed W
  pub tx_pipelined : Body → W → Executed W
  pub watch :
      (W → (Option Error × List Cmder) × W) → List String → W → (Option Error × List Cmder) × W
  pub scan : ℕ → String → ℤ → Command W (List String × ℕ)
  pub geo_add : String → List GeoLocation → Command W ℤ
  pub geo_dist : String → String → String → String → Command W ℤ
  pub geo_pos : String → List String → Command W (List (Option GeoPos))
  pub geo_search_location : String → SearchLocationQuery → Command W (List GeoLocation)
  pub pfadd : String → List Value → Command W ℤ
  pub pfcount : List String → Command W ℤ
  pub pfmerge : String → List String → Command W (Unit {0})
  pub set_bit : String → ℤ → ℤ → Command W ℤ
  pub get_bit : String → ℤ → Command W ℤ
  pub bit_count : String → ℤ → ℤ → Command W ℤ
  pub bit_op_and : String → List String → Command W ℤ
  pub bit_op_or : String → List String → Command W ℤ
  pub bit_op_xor : String → List String → Command W ℤ
  pub bit_op_not : String → String → Command W ℤ
  pub bit_pos : String → ℤ → Command W ℤ
  pub bit_pos_span : String → ℤ → ℤ → ℤ → String → Command W ℤ
  pub lmpop : String → ℤ → List String → Command W (String × List String)
  pub zmpop : String → ℤ → List String → Command W (String × List Z)
