-- ===== src/Contract.antt =====
-- The interface of a backend and the types that it adds: sdk/go/internal/contract. A backend is a
-- record of functions of the state around it; LMPop and ZMPop, which nothing calls, are left out. A
-- float64 is an integer, and the unexported struct of a page of Scan is `scanned`.
use resilix.Prelude.{ℕ, String, Bool, Option, List}
use resilix.Prelude.Int.{ℤ, Duration}
use resilix.Errors.{Result}
use resilix.Dict.{Dict}
use resilix.Mock.{Value, ZMember}
use resilix.Mock.Stubs.{PoolStats}
use resilix.Mock.Stream.{StreamReadRequest, StreamReadResponse}
use resilix.Mock.Pipeline.{PipelineCommand, CommandResult}

pub record GeoPosition : Type 0 where
  pub longitude : ℤ
  pub latitude : ℤ

pub record GeoMember : Type 0 where
  pub longitude : ℤ
  pub latitude : ℤ
  pub name : String

pub record GeoBox : Type 0 where
  pub width : ℤ
  pub height : ℤ

pub record GeoSearchQuery : Type 0 where
  pub from_member : String
  pub from_coord : Option GeoPosition
  pub by_radius : ℤ
  pub by_box : Option GeoBox
  pub unit : String
  pub sort : String
  pub count : ℤ
  pub any : Bool
  pub with_coord : Bool
  pub with_dist : Bool

pub record GeoSearchResult : Type 0 where
  pub name : String
  pub distance : ℤ
  pub geo_hash : ℤ
  pub coord : Option GeoPosition

-- A value of type `any`, by the type that it has.
pub data Any : Type 0 where
  nil : Any
  str : String → Any
  int : ℤ → Any
  float : ℤ → Any
  bool : Bool → Any
  values : List (Option String) → Any
  fields : Dict String → Any
  strings : List String → Any
  zmembers : List ZMember → Any
  subscription : ℕ → Any
  responses : List StreamReadResponse → Any
  results : List CommandResult → Any
  positions : List (Option GeoPosition) → Any
  found : List GeoSearchResult → Any
  scanned : List String → ℕ → Any

-- A command of a backend, over a state.
abbrev pub Command : Type 0 → Type 0 → Type 0
Command W A = W → Result A × W

pub record Backend (W : Type 0) : Type 0 where
  pub ping : Command W (Unit {0})
  pub close : Command W (Unit {0})
  pub pool_stats : W → PoolStats
  pub get : String → Command W String
  pub set : String → Value → Duration → Command W (Unit {0})
  pub mget : List String → Command W (List (Option String))
  pub mset : Dict Value → Command W (Unit {0})
  pub del : List String → Command W ℤ
  pub exists : List String → Command W ℤ
  pub expire : String → Duration → Command W Bool
  pub ttl : String → Command W Duration
  pub incr : String → Command W ℤ
  pub decr : String → Command W ℤ
  pub hset : String → Dict Value → Command W ℤ
  pub hget : String → String → Command W String
  pub hget_all : String → Command W (Dict String)
  pub hmget : String → List String → Command W (List (Option String))
  pub hdel : String → List String → Command W ℤ
  pub lpush : String → List Value → Command W ℤ
  pub rpush : String → List Value → Command W ℤ
  pub lpop : String → Command W String
  pub rpop : String → Command W String
  pub lrange : String → ℤ → ℤ → Command W (List String)
  pub llen : String → Command W ℤ
  pub sadd : String → List String → Command W ℤ
  pub srem : String → List String → Command W ℤ
  pub smembers : String → Command W (List String)
  pub sismember : String → String → Command W Bool
  pub scard : String → Command W ℤ
  pub zadd : String → List ZMember → Command W ℤ
  pub zrange : String → ℤ → ℤ → Command W (List ZMember)
  pub zrev_range : String → ℤ → ℤ → Command W (List ZMember)
  pub zrem : String → List String → Command W ℤ
  pub zscore : String → String → Command W ℤ
  pub publish : String → Value → Command W ℤ
  pub subscribe : List String → Command W ℕ
  pub xadd : String → Dict Value → ℤ → Bool → Command W String
  pub xread_group : StreamReadRequest → Command W (List StreamReadResponse)
  pub xack : String → String → List String → Command W ℤ
  pub xdel : String → List String → Command W ℤ
  pub xgroup_create_mk_stream : String → String → String → Command W (Unit {0})
  pub eval : String → List String → List Value → Command W Any
  pub eval_sha : String → List String → List Value → Command W Any
  pub script_load : String → Command W String
  pub scan : ℕ → String → ℤ → Command W (List String × ℕ)
  pub pipeline : List PipelineCommand → Command W (List CommandResult)
  pub transaction : List String → List PipelineCommand → Command W (List CommandResult)
  pub geo_add : String → List GeoMember → Command W ℤ
  pub geo_dist : String → String → String → String → Command W ℤ
  pub geo_pos : String → List String → Command W (List (Option GeoPosition))
  pub geo_search : String → GeoSearchQuery → Command W (List GeoSearchResult)
  pub pfadd : String → List Value → Command W Bool
  pub pfcount : List String → Command W ℤ
  pub pfmerge : String → List String → Command W (Unit {0})
  pub set_bit : String → ℤ → ℤ → Command W ℤ
  pub get_bit : String → ℤ → Command W ℤ
  pub bit_count : String → ℤ → ℤ → Command W ℤ
  pub bit_op : String → String → List String → Command W ℤ
  pub bit_pos : String → ℤ → List ℤ → Command W ℤ
