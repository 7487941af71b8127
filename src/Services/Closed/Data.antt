-- ===== src/Services/Closed/Data.antt =====
-- The methods of keys, hashes and lists on a client that is closed.
use resilix.Prelude.{◌≡◌, true, List, [], ◌∷◌, String}
use resilix.Prelude.Int.{ℤ, Duration}
use resilix.Dict.{Dict}
use resilix.Mock.{Value}
use resilix.Contract.{nil, str, int, float, bool, values, fields, strings}
use resilix.Services.{
  Session, as_str, as_int, as_float, as_bool, as_values, as_fields, as_strings, ignored,
}
use resilix.Services.Closed.{Refuses, checked-closed}
use resilix.Services.Kv
use resilix.Services.Hash
use resilix.Services.Lists
use resilix.Validation.{
  first_error, validate_key, validate_key_as, validate_keys, validate_map, validate_string_slice,
}

-- The methods of keys with text values.
pub record KvClosed {E : Type 0} (c : Session E) : Type 0 where
  pub get : (key : String) → Refuses (validate_key key) (Kv.get c key)
  pub set :
      (key : String) (value : Value) (ttl : Duration)
      → Refuses (validate_key key) (Kv.set c key value ttl)
  pub mget : (keys : List String) → Refuses (validate_keys keys) (Kv.mget c keys)
  pub del : (keys : List String) → Refuses (validate_keys keys) (Kv.del c keys)
  pub exists : (keys : List String) → Refuses (validate_keys keys) (Kv.exists c keys)
  pub expire : (key : String) (ttl : Duration) → Refuses (validate_key key) (Kv.expire c key ttl)
  pub ttl : (key : String) → Refuses (validate_key key) (Kv.ttl c key)
  pub incr : (key : String) → Refuses (validate_key key) (Kv.incr c key)
  pub decr : (key : String) → Refuses (validate_key key) (Kv.decr c key)

pub kv-closed : {E : Type 0} (c : Session E) → c.closed ≡ true → KvClosed c
unfolding Kv.get Kv.set Kv.mget Kv.del Kv.exists Kv.expire Kv.ttl Kv.incr Kv.decr
kv-closed c h = record {
  get = λ key.
      checked-closed c h (validate_key key) "GET" "kv" (key ∷ []) (λ s. str s) (c.backend.get key)
        as_str;
  set = λ key value ttl.
      checked-closed c h (validate_key key) "SET" "kv" (key ∷ []) (λ u. nil)
        (c.backend.set key value ttl) ignored;
  mget = λ keys.
      checked-closed c h (validate_keys keys) "MGET" "kv" keys (λ l. values l) (c.backend.mget keys)
        as_values;
  del = λ keys.
      checked-closed c h (validate_keys keys) "DEL" "kv" keys (λ n. int n) (c.backend.del keys)
        as_int;
  exists = λ keys.
      checked-closed c h (validate_keys keys) "EXISTS" "kv" keys (λ n. int n)
        (c.backend.exists keys) as_int;
  expire = λ key ttl.
      checked-closed c h (validate_key key) "EXPIRE" "kv" (key ∷ []) (λ b. bool b)
        (c.backend.expire key ttl) as_bool;
  ttl = λ key.
      checked-closed c h (validate_key key) "TTL" "kv" (key ∷ []) (λ x. float x) (c.backend.ttl key)
        as_float;
  incr = λ key.
      checked-closed c h (validate_key key) "INCR" "kv" (key ∷ []) (λ n. int n) (c.backend.incr key)
        as_int;
  decr = λ key.
      checked-closed c h (validate_key key) "DECR" "kv" (key ∷ []) (λ n. int n) (c.backend.decr key)
        as_int;
}

-- The methods of hashes.
pub record HashClosed {E : Type 0} (c : Session E) : Type 0 where
  pub set :
      (key : String) (fields_ : Dict Value)
      → Refuses
          (first_error (validate_key key) (validate_map "values" fields_))
          (Hash.set c key fields_)
  pub get :
      (key : String) (field : String)
      → Refuses
          (first_error (validate_key key) (validate_key_as "field" field))
          (Hash.get c key field)
  pub get_all : (key : String) → Refuses (validate_key key) (Hash.get_all c key)
  pub mget :
      (key : String) (names : List String)
      → Refuses
          (first_error (validate_key key) (validate_string_slice "fields" names))
          (Hash.mget c key names)
  pub del :
      (key : String) (names : List String)
      → Refuses
          (first_error (validate_key key) (validate_string_slice "fields" names))
          (Hash.del c key names)

pub hash-closed : {E : Type 0} (c : Session E) → c.closed ≡ true → HashClosed c
unfolding Hash.set Hash.get Hash.get_all Hash.mget Hash.del
hash-closed c h = record {
  set = λ key fields_.
      checked-closed c h (first_error (validate_key key) (validate_map "values" fields_)) "HSET"
        "hash" (key ∷ []) (λ n. int n) (c.backend.hset key fields_) as_int;
  get = λ key field.
      checked-closed c h (first_error (validate_key key) (validate_key_as "field" field)) "HGET"
        "hash" (key ∷ []) (λ s. str s) (c.backend.hget key field) as_str;
  get_all = λ key.
      checked-closed c h (validate_key key) "HGETALL" "hash" (key ∷ []) (λ d. fields d)
        (c.backend.hget_all key) as_fields;
  mget = λ key names.
      checked-closed c h (first_error (validate_key key) (validate_string_slice "fields" names))
        "HMGET" "hash" (key ∷ []) (λ l. values l) (c.backend.hmget key names) as_values;
  del = λ key names.
      checked-closed c h (first_error (validate_key key) (validate_string_slice "fields" names))
        "HDEL" "hash" (key ∷ []) (λ n. int n) (c.backend.hdel key names) as_int;
}

-- The methods of lists.
pub record ListsClosed {E : Type 0} (c : Session E) : Type 0 where
  pub lpush : (key : String) (vs : List Value) → Refuses (validate_key key) (Lists.lpush c key vs)
  pub rpush : (key : String) (vs : List Value) → Refuses (validate_key key) (Lists.rpush c key vs)
  pub lpop : (key : String) → Refuses (validate_key key) (Lists.lpop c key)
  pub rpop : (key : String) → Refuses (validate_key key) (Lists.rpop c key)
  pub range :
      (key : String) (start : ℤ) (stop : ℤ)
      → Refuses (validate_key key) (Lists.range c key start stop)
  pub len : (key : String) → Refuses (validate_key key) (Lists.len c key)

pub lists-closed : {E : Type 0} (c : Session E) → c.closed ≡ true → ListsClosed c
unfolding Lists.lpush Lists.rpush Lists.lpop Lists.rpop Lists.range Lists.len
lists-closed c h = record {
  lpush = λ key vs.
      checked-closed c h (validate_key key) "LPUSH" "list" (key ∷ []) (λ n. int n)
        (c.backend.lpush key vs) as_int;
  rpush = λ key vs.
      checked-closed c h (validate_key key) "RPUSH" "list" (key ∷ []) (λ n. int n)
        (c.backend.rpush key vs) as_int;
  lpop = λ key.
      checked-closed c h (validate_key key) "LPOP" "list" (key ∷ []) (λ s. str s)
        (c.backend.lpop key) as_str;
  rpop = λ key.
      checked-closed c h (validate_key key) "RPOP" "list" (key ∷ []) (λ s. str s)
        (c.backend.rpop key) as_str;
  range = λ key start stop.
      checked-closed c h (validate_key key) "LRANGE" "list" (key ∷ []) (λ l. strings l)
        (c.backend.lrange key start stop) as_strings;
  len = λ key.
      checked-closed c h (validate_key key) "LLEN" "list" (key ∷ []) (λ n. int n)
        (c.backend.llen key) as_int;
}
