-- ===== src/Services/Types/Data.antt =====
-- The results of the services of keys, hashes, lists, sets and sorted sets have their types.
use resilix.Prelude.{refl, List, String}
use resilix.Prelude.Int.{ℤ, Duration}
use resilix.Dict.{Dict}
use resilix.Mock.{Value, ZMember}
use resilix.Contract.{nil, str, int, float, bool, values, fields, strings, zmembers}
use resilix.Services.{
  Session, as_str, as_int, as_float, as_bool, as_values, as_fields, as_strings, as_zmembers,
  ignored,
}
use resilix.Services.Types.{IsPlain, Returns, checked-returns}
use resilix.Services.Kv
use resilix.Services.Hash
use resilix.Services.Lists
use resilix.Services.Sets
use resilix.Services.Zset

-- The methods of keys with text values.
pub record KvReturns {E : Type 0} (c : Session E) : Type 0 where
  pub get : (key : String) → Returns (Kv.get c key)
  pub set : (key : String) (value : Value) (ttl : Duration) → Returns (Kv.set c key value ttl)
  pub mget : (keys : List String) → Returns (Kv.mget c keys)
  pub del : (keys : List String) → Returns (Kv.del c keys)
  pub exists : (keys : List String) → Returns (Kv.exists c keys)
  pub expire : (key : String) (ttl : Duration) → Returns (Kv.expire c key ttl)
  pub ttl : (key : String) → Returns (Kv.ttl c key)
  pub incr : (key : String) → Returns (Kv.incr c key)
  pub decr : (key : String) → Returns (Kv.decr c key)

pub kv-return : {E : Type 0} (c : Session E) → IsPlain c → KvReturns c
unfolding Kv.get Kv.set Kv.mget Kv.del Kv.exists Kv.expire Kv.ttl Kv.incr Kv.decr as_str ignored
    as_values as_int as_bool as_float
kv-return c plain = record {
  get = λ key.
      checked-returns c plain (λ s. str s) (c.backend.get key) as_str (λ a. (a, refl)) _ _ _ _;
  set = λ key value ttl.
      checked-returns c plain (λ u. nil) (c.backend.set key value ttl) ignored (λ a. (tt, refl)) _ _
        _ _;
  mget = λ keys.
      checked-returns c plain (λ l. values l) (c.backend.mget keys) as_values (λ a. (a, refl)) _ _ _
        _;
  del = λ keys.
      checked-returns c plain (λ n. int n) (c.backend.del keys) as_int (λ a. (a, refl)) _ _ _ _;
  exists = λ keys.
      checked-returns c plain (λ n. int n) (c.backend.exists keys) as_int (λ a. (a, refl)) _ _ _ _;
  expire = λ key ttl.
      checked-returns c plain (λ b. bool b) (c.backend.expire key ttl) as_bool (λ a. (a, refl)) _ _
        _ _;
  ttl = λ key.
      checked-returns c plain (λ x. float x) (c.backend.ttl key) as_float (λ a. (a, refl)) _ _ _ _;
  incr = λ key.
      checked-returns c plain (λ n. int n) (c.backend.incr key) as_int (λ a. (a, refl)) _ _ _ _;
  decr = λ key.
      checked-returns c plain (λ n. int n) (c.backend.decr key) as_int (λ a. (a, refl)) _ _ _ _;
}

-- The methods of hashes.
pub record HashReturns {E : Type 0} (c : Session E) : Type 0 where
  pub set : (key : String) (fields_ : Dict Value) → Returns (Hash.set c key fields_)
  pub get : (key : String) (field : String) → Returns (Hash.get c key field)
  pub get_all : (key : String) → Returns (Hash.get_all c key)
  pub mget : (key : String) (names : List String) → Returns (Hash.mget c key names)
  pub del : (key : String) (names : List String) → Returns (Hash.del c key names)

pub hash-return : {E : Type 0} (c : Session E) → IsPlain c → HashReturns c
unfolding Hash.set Hash.get Hash.get_all Hash.mget Hash.del as_int as_str as_fields as_values
hash-return c plain = record {
  set = λ key fields_.
      checked-returns c plain (λ n. int n) (c.backend.hset key fields_) as_int (λ a. (a, refl)) _ _
        _ _;
  get = λ key field.
      checked-returns c plain (λ s. str s) (c.backend.hget key field) as_str (λ a. (a, refl)) _ _ _
        _;
  get_all = λ key.
      checked-returns c plain (λ d. fields d) (c.backend.hget_all key) as_fields (λ a. (a, refl)) _
        _ _ _;
  mget = λ key names.
      checked-returns c plain (λ l. values l) (c.backend.hmget key names) as_values (λ a. (a, refl))
        _ _ _ _;
  del = λ key names.
      checked-returns c plain (λ n. int n) (c.backend.hdel key names) as_int (λ a. (a, refl)) _ _ _
        _;
}

-- The methods of lists.
pub record ListsReturns {E : Type 0} (c : Session E) : Type 0 where
  pub lpush : (key : String) (vs : List Value) → Returns (Lists.lpush c key vs)
  pub rpush : (key : String) (vs : List Value) → Returns (Lists.rpush c key vs)
  pub lpop : (key : String) → Returns (Lists.lpop c key)
  pub rpop : (key : String) → Returns (Lists.rpop c key)
  pub range : (key : String) (start : ℤ) (stop : ℤ) → Returns (Lists.range c key start stop)
  pub len : (key : String) → Returns (Lists.len c key)

pub lists-return : {E : Type 0} (c : Session E) → IsPlain c → ListsReturns c
unfolding Lists.lpush Lists.rpush Lists.lpop Lists.rpop Lists.range Lists.len as_int as_str
    as_strings
lists-return c plain = record {
  lpush = λ key vs.
      checked-returns c plain (λ n. int n) (c.backend.lpush key vs) as_int (λ a. (a, refl)) _ _ _ _;
  rpush = λ key vs.
      checked-returns c plain (λ n. int n) (c.backend.rpush key vs) as_int (λ a. (a, refl)) _ _ _ _;
  lpop = λ key.
      checked-returns c plain (λ s. str s) (c.backend.lpop key) as_str (λ a. (a, refl)) _ _ _ _;
  rpop = λ key.
      checked-returns c plain (λ s. str s) (c.backend.rpop key) as_str (λ a. (a, refl)) _ _ _ _;
  range = λ key start stop.
      checked-returns c plain (λ l. strings l) (c.backend.lrange key start stop) as_strings
        (λ a. (a, refl)) _ _ _ _;
  len = λ key.
      checked-returns c plain (λ n. int n) (c.backend.llen key) as_int (λ a. (a, refl)) _ _ _ _;
}

-- The methods of sets.
pub record SetsReturns {E : Type 0} (c : Session E) : Type 0 where
  pub add : (key : String) (members : List String) → Returns (Sets.add c key members)
  pub remove : (key : String) (members : List String) → Returns (Sets.remove c key members)
  pub members_of : (key : String) → Returns (Sets.members_of c key)
  pub is_member : (key : String) (member : String) → Returns (Sets.is_member c key member)
  pub card : (key : String) → Returns (Sets.card c key)

pub sets-return : {E : Type 0} (c : Session E) → IsPlain c → SetsReturns c
unfolding Sets.add Sets.remove Sets.members_of Sets.is_member Sets.card as_int as_strings as_bool
sets-return c plain = record {
  add = λ key members.
      checked-returns c plain (λ n. int n) (c.backend.sadd key members) as_int (λ a. (a, refl)) _ _
        _ _;
  remove = λ key members.
      checked-returns c plain (λ n. int n) (c.backend.srem key members) as_int (λ a. (a, refl)) _ _
        _ _;
  members_of = λ key.
      checked-returns c plain (λ l. strings l) (c.backend.smembers key) as_strings (λ a. (a, refl))
        _ _ _ _;
  is_member = λ key member.
      checked-returns c plain (λ b. bool b) (c.backend.sismember key member) as_bool
        (λ a. (a, refl)) _ _ _ _;
  card = λ key.
      checked-returns c plain (λ n. int n) (c.backend.scard key) as_int (λ a. (a, refl)) _ _ _ _;
}

-- The methods of sorted sets.
pub record ZsetReturns {E : Type 0} (c : Session E) : Type 0 where
  pub add : (key : String) (scored : List ZMember) → Returns (Zset.add c key scored)
  pub range : (key : String) (start : ℤ) (stop : ℤ) → Returns (Zset.range c key start stop)
  pub rev_range : (key : String) (start : ℤ) (stop : ℤ) → Returns (Zset.rev_range c key start stop)
  pub remove : (key : String) (members : List String) → Returns (Zset.remove c key members)
  pub score : (key : String) (member : String) → Returns (Zset.score c key member)

pub zset-return : {E : Type 0} (c : Session E) → IsPlain c → ZsetReturns c
unfolding Zset.add Zset.range Zset.rev_range Zset.remove Zset.score as_int as_zmembers as_float
zset-return c plain = record {
  add = λ key scored.
      checked-returns c plain (λ n. int n) (c.backend.zadd key scored) as_int (λ a. (a, refl)) _ _ _
        _;
  range = λ key start stop.
      checked-returns c plain (λ l. zmembers l) (c.backend.zrange key start stop) as_zmembers
        (λ a. (a, refl)) _ _ _ _;
  rev_range = λ key start stop.
      checked-returns c plain (λ l. zmembers l) (c.backend.zrev_range key start stop) as_zmembers
        (λ a. (a, refl)) _ _ _ _;
  remove = λ key members.
      checked-returns c plain (λ n. int n) (c.backend.zrem key members) as_int (λ a. (a, refl)) _ _
        _ _;
  score = λ key member.
      checked-returns c plain (λ x. float x) (c.backend.zscore key member) as_float (λ a. (a, refl))
        _ _ _ _;
}
