-- ===== src/Services/Closed/Sent.antt =====
-- The methods of sets, sorted sets, channels and streams on a client that is closed.
use resilix.Prelude.{◌≡◌, true, List, [], ◌∷◌, String, Bool}
use resilix.Prelude.Int.{ℤ}
use resilix.Dict.{Dict}
use resilix.Mock.{Value, ZMember}
use resilix.Contract.{nil, str, int, float, bool, strings, zmembers, subscription, responses}
use resilix.Services.{
  Session, as_str, as_int, as_float, as_bool, as_strings, as_zmembers, ignored, as_subscription,
  as_responses,
}
use resilix.Services.Closed.{Refuses, checked-closed}
use resilix.Validation.{
  first_error, validate_key, validate_key_as, validate_map, validate_string_slice,
}
use resilix.Mock.Stream.{StreamReadRequest}
use resilix.Services.Sets
use resilix.Services.Zset
use resilix.Services.Messages

-- The methods of sets.
pub record SetsClosed {E : Type 0} (c : Session E) : Type 0 where
  pub add :
      (key : String) (members : List String)
      → Refuses
          (first_error (validate_key key) (validate_string_slice "members" members))
          (Sets.add c key members)
  pub remove :
      (key : String) (members : List String)
      → Refuses
          (first_error (validate_key key) (validate_string_slice "members" members))
          (Sets.remove c key members)
  pub members_of : (key : String) → Refuses (validate_key key) (Sets.members_of c key)
  pub is_member :
      (key : String) (member : String)
      → Refuses
          (first_error (validate_key key) (validate_key_as "member" member))
          (Sets.is_member c key member)
  pub card : (key : String) → Refuses (validate_key key) (Sets.card c key)

pub sets-closed : {E : Type 0} (c : Session E) → c.closed ≡ true → SetsClosed c
unfolding Sets.add Sets.remove Sets.members_of Sets.is_member Sets.card
sets-closed c h = record {
  add = λ key members.
      checked-closed c h (first_error (validate_key key) (validate_string_slice "members" members))
        "SADD" "set" (key ∷ []) (λ n. int n) (c.backend.sadd key members) as_int;
  remove = λ key members.
      checked-closed c h (first_error (validate_key key) (validate_string_slice "members" members))
        "SREM" "set" (key ∷ []) (λ n. int n) (c.backend.srem key members) as_int;
  members_of = λ key.
      checked-closed c h (validate_key key) "SMEMBERS" "set" (key ∷ []) (λ l. strings l)
        (c.backend.smembers key) as_strings;
  is_member = λ key member.
      checked-closed c h (first_error (validate_key key) (validate_key_as "member" member))
        "SISMEMBER" "set" (key ∷ []) (λ b. bool b) (c.backend.sismember key member) as_bool;
  card = λ key.
      checked-closed c h (validate_key key) "SCARD" "set" (key ∷ []) (λ n. int n)
        (c.backend.scard key) as_int;
}

-- The methods of sorted sets.
pub record ZsetClosed {E : Type 0} (c : Session E) : Type 0 where
  pub add :
      (key : String) (scored : List ZMember) → Refuses (validate_key key) (Zset.add c key scored)
  pub range :
      (key : String) (start : ℤ) (stop : ℤ)
      → Refuses (validate_key key) (Zset.range c key start stop)
  pub rev_range :
      (key : String) (start : ℤ) (stop : ℤ)
      → Refuses (validate_key key) (Zset.rev_range c key start stop)
  pub remove :
      (key : String) (members : List String)
      → Refuses
          (first_error (validate_key key) (validate_string_slice "members" members))
          (Zset.remove c key members)
  pub score :
      (key : String) (member : String)
      → Refuses
          (first_error (validate_key key) (validate_key_as "member" member))
          (Zset.score c key member)

pub zset-closed : {E : Type 0} (c : Session E) → c.closed ≡ true → ZsetClosed c
unfolding Zset.add Zset.range Zset.rev_range Zset.remove Zset.score
zset-closed c h = record {
  add = λ key scored.
      checked-closed c h (validate_key key) "ZADD" "zset" (key ∷ []) (λ n. int n)
        (c.backend.zadd key scored) as_int;
  range = λ key start stop.
      checked-closed c h (validate_key key) "ZRANGE" "zset" (key ∷ []) (λ l. zmembers l)
        (c.backend.zrange key start stop) as_zmembers;
  rev_range = λ key start stop.
      checked-closed c h (validate_key key) "ZREVRANGE" "zset" (key ∷ []) (λ l. zmembers l)
        (c.backend.zrev_range key start stop) as_zmembers;
  remove = λ key members.
      checked-closed c h (first_error (validate_key key) (validate_string_slice "members" members))
        "ZREM" "zset" (key ∷ []) (λ n. int n) (c.backend.zrem key members) as_int;
  score = λ key member.
      checked-closed c h (first_error (validate_key key) (validate_key_as "member" member)) "ZSCORE"
        "zset" (key ∷ []) (λ x. float x) (c.backend.zscore key member) as_float;
}

-- The methods of channels and streams.
pub record MessagesClosed {E : Type 0} (c : Session E) : Type 0 where
  pub publish :
      (channel : String) (payload : Value)
      → Refuses (validate_key_as "channel" channel) (Messages.publish c channel payload)
  pub subscribe :
      (channels : List String)
      → Refuses (validate_string_slice "channels" channels) (Messages.subscribe c channels)
  pub add :
      (stream : String) (vs : Dict Value) (max_len : ℤ) (approximate : Bool)
      → Refuses
          (first_error (validate_key_as "stream" stream) (validate_map "values" vs))
          (Messages.add c stream vs max_len approximate)
  pub read_group :
      (request : StreamReadRequest)
      → Refuses (validate_string_slice "streams" request.streams) (Messages.read_group c request)
  pub ack :
      (stream : String) (group : String) (ids : List String)
      → Refuses
          (first_error
            (first_error (validate_key stream) (validate_key_as "group" group))
            (validate_string_slice "ids" ids))
          (Messages.ack c stream group ids)
  pub delete :
      (stream : String) (ids : List String)
      → Refuses
          (first_error (validate_key stream) (validate_string_slice "ids" ids))
          (Messages.delete c stream ids)
  pub create_group :
      (stream : String) (group : String) (start : String)
      → Refuses
          (first_error (validate_key stream) (validate_key_as "group" group))
          (Messages.create_group c stream group start)

pub messages-closed : {E : Type 0} (c : Session E) → c.closed ≡ true → MessagesClosed c
unfolding Messages.publish Messages.subscribe Messages.add Messages.read_group Messages.ack
    Messages.delete Messages.create_group
messages-closed c h = record {
  publish = λ channel payload.
      checked-closed c h (validate_key_as "channel" channel) "PUBLISH" "pubsub" (channel ∷ [])
        (λ n. int n) (c.backend.publish channel payload) as_int;
  subscribe = λ channels.
      checked-closed c h (validate_string_slice "channels" channels) "SUBSCRIBE" "pubsub" channels
        (λ s. subscription s) (c.backend.subscribe channels) as_subscription;
  add = λ stream vs max_len approximate.
      checked-closed c h (first_error (validate_key_as "stream" stream) (validate_map "values" vs))
        "XADD" "stream" (stream ∷ []) (λ s. str s) (c.backend.xadd stream vs max_len approximate)
        as_str;
  read_group = λ request.
      checked-closed c h (validate_string_slice "streams" request.streams) "XREADGROUP" "stream"
        request.streams (λ l. responses l) (c.backend.xread_group request) as_responses;
  ack = λ stream group ids.
      checked-closed c h
        (first_error (first_error (validate_key stream) (validate_key_as "group" group))
          (validate_string_slice "ids" ids))
        "XACK" "stream" (stream ∷ []) (λ n. int n) (c.backend.xack stream group ids) as_int;
  delete = λ stream ids.
      checked-closed c h (first_error (validate_key stream) (validate_string_slice "ids" ids))
        "XDEL" "stream" (stream ∷ []) (λ n. int n) (c.backend.xdel stream ids) as_int;
  create_group = λ stream group start.
      checked-closed c h (first_error (validate_key stream) (validate_key_as "group" group))
        "XGROUP" "stream" (stream ∷ []) (λ u. nil)
        (c.backend.xgroup_create_mk_stream stream group start) ignored;
}
