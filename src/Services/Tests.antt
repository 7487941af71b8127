-- ===== src/Services/Tests.antt =====
-- A client above the mock backend, whose clock stands still.
use resilix.Prelude.{
  ◌≡◌, refl, Option, none, some, [], ◌∷◌, String, arith, true, false, if◌then◌else◌,
}
use resilix.Prelude.Int.{pos}
use resilix.Errors.{Result, ok, err, canceled}
use resilix.Dict
use resilix.Breaker
use resilix.Breaker.{closed}
use resilix.Retry.{World, new_policy}
use resilix.Mock
use resilix.Mock.{Mock, Value, text, new_mock, sprint, set_kv}
use resilix.Contract.{Any, Backend}
use resilix.Client.{RedisClient}
use resilix.Services.{Session}
use resilix.Services.Kv
use resilix.Services.Bulk
use resilix.Services.Quiet.{Calm, Quiet}
use resilix.Services.RoundTrip.{get-set_end}
use resilix.Services.BulkStore.{bulk_get-stored, stored}
use resilix.Mock.Kv.Views.{elem}
use resilix.Validation.{validate_key, validate_keys}
use resilix.Services.Types.Total.{Total}

abbrev pub on : {A : Type 0} → (Mock → Result A × Mock) → World Mock → Result A × World Mock
on f s = let (r, m) = f s.env in (r, record s { env = m })

-- A backend that refuses nearly all.
abbrev pub bare : {W : Type 0} → Backend W
bare = record {
  ping = λ s. (err canceled, s);
  close = λ s. (ok tt, s);
  pool_stats = λ s. Mock.Stubs.pool_stats;
  get = λ x. λ s. (err canceled, s);
  set = λ x y z. λ s. (err canceled, s);
  mget = λ x. λ s. (err canceled, s);
  mset = λ x. λ s. (err canceled, s);
  del = λ x. λ s. (err canceled, s);
  exists = λ x. λ s. (err canceled, s);
  expire = λ x y. λ s. (err canceled, s);
  ttl = λ x. λ s. (err canceled, s);
  incr = λ x. λ s. (err canceled, s);
  decr = λ x. λ s. (err canceled, s);
  hset = λ x y. λ s. (err canceled, s);
  hget = λ x y. λ s. (err canceled, s);
  hget_all = λ x. λ s. (err canceled, s);
  hmget = λ x y. λ s. (err canceled, s);
  hdel = λ x y. λ s. (err canceled, s);
  lpush = λ x y. λ s. (err canceled, s);
  rpush = λ x y. λ s. (err canceled, s);
  lpop = λ x. λ s. (err canceled, s);
  rpop = λ x. λ s. (err canceled, s);
  lrange = λ x y z. λ s. (err canceled, s);
  llen = λ x. λ s. (err canceled, s);
  sadd = λ x y. λ s. (err canceled, s);
  srem = λ x y. λ s. (err canceled, s);
  smembers = λ x. λ s. (err canceled, s);
  sismember = λ x y. λ s. (err canceled, s);
  scard = λ x. λ s. (err canceled, s);
  zadd = λ x y. λ s. (err canceled, s);
  zrange = λ x y z. λ s. (err canceled, s);
  zrev_range = λ x y z. λ s. (err canceled, s);
  zrem = λ x y. λ s. (err canceled, s);
  zscore = λ x y. λ s. (err canceled, s);
  publish = λ x y. λ s. (err canceled, s);
  subscribe = λ x. λ s. (err canceled, s);
  xadd = λ x y z u. λ s. (err canceled, s);
  xread_group = λ x. λ s. (err canceled, s);
  xack = λ x y z. λ s. (err canceled, s);
  xdel = λ x y. λ s. (err canceled, s);
  xgroup_create_mk_stream = λ x y z. λ s. (err canceled, s);
  eval = λ x y z. λ s. (err canceled, s);
  eval_sha = λ x y z. λ s. (err canceled, s);
  script_load = λ x. λ s. (err canceled, s);
  scan = λ x y z. λ s. (err canceled, s);
  pipeline = λ x. λ s. (err canceled, s);
  transaction = λ x y. λ s. (err canceled, s);
  geo_add = λ x y. λ s. (err canceled, s);
  geo_dist = λ x y z u. λ s. (err canceled, s);
  geo_pos = λ x y. λ s. (err canceled, s);
  geo_search = λ x y. λ s. (err canceled, s);
  pfadd = λ x y. λ s. (err canceled, s);
  pfcount = λ x. λ s. (err canceled, s);
  pfmerge = λ x y. λ s. (err canceled, s);
  set_bit = λ x y z. λ s. (err canceled, s);
  get_bit = λ x y. λ s. (err canceled, s);
  bit_count = λ x y z. λ s. (err canceled, s);
  bit_op = λ x y z. λ s. (err canceled, s);
  bit_pos = λ x y z. λ s. (err canceled, s);
}

abbrev pub store : Backend (World Mock)
store = record (bare {W = World Mock}) {
  ping = on λ m. Mock.Stubs.ping m;
  get = λ key. on λ m. Mock.Kv.get (pos 7) key m;
  set = λ key v ttl. on λ m. Mock.Kv.set (pos 7) key v ttl m;
  mget = λ keys. on λ m. Mock.Kv.mget (pos 7) keys m;
  scan = λ cursor pattern count. on λ m. Mock.Scan.scan (pos 7) cursor count m;
}

abbrev client : RedisClient Mock Any
client = record {
  policy = new_policy (pos 3) none;
  before_execute = [];
  after_execute = [];
  middlewares = [];
  acquire = λ op w. (none, w);
  release = λ w. w;
  begin = λ op w. w;
  finish = λ e w. w;
}

abbrev pub session : Session Mock
session = record {
  client = client;
  closed = false;
  backend = store;
  now = λ m. pos 7;
  backoff = λ n w. (pos 1, w);
  wait = λ d w. (none, w);
}

abbrev pub config : Breaker.Config
config = record {
  failure_threshold = pos 5;
  open_timeout = pos 10;
  half_open_max_requests = pos 1;
  on_state_change = true;
}

-- Keys "a" and "b".
abbrev pub start : World Mock
start = record {
  breaker = some (Breaker.new config);
  env = set_kv "b" "2" (set_kv "a" "1" new_mock);
}

pub session-Quiet : Quiet session (λ m. m)
unfolding new_policy
session-Quiet = record {
  is_open = refl;
  no_before = refl;
  no_after = refl;
  no_middleware = refl;
  attempts = 2;
  attempts_pos = refl;
  admits = λ op w. refl;
  acquire_keeps = λ op w. (refl, refl);
  begin_keeps = λ op w. (refl, refl);
  finish_keeps = λ e w. (refl, refl);
  release_keeps = λ w. (refl, refl);
}

pub start-Calm : Calm start
unfolding Breaker.new
start-Calm b e = ground (arith, e)

get-set_end_example :
    ((Kv.set session "a" (text "x") (pos 0) start).0 ≡ some (ok tt))
    × ((Kv.get session "a" (Kv.set session "a" (text "x") (pos 0) start).1).0 ≡ some (ok "x"))
unfolding new_mock set_kv Dict.get_or Dict.get Dict.lookup Dict.empty Dict.put Dict.insert sprint
    validate_key
get-set_end_example =
    get-set_end session (λ m. m) session-Quiet (λ k v ttl w. (refl, refl, refl))
      (λ k w. (refl, refl, refl)) "a" (text "x") (pos 0) start start-Calm (refl, refl) (refl, refl)
      refl (omega arith)

bulk_get-stored_example :
    (d : Dict.Dict (Option String)) × ((Bulk.get session ("a" ∷ "c" ∷ "b" ∷ []) (pos 2) start).0
      ≡ some (ok d))
    × ((j : String)
        → Dict.get d j
          ≡ (if elem j ("a" ∷ "c" ∷ "b" ∷ []) then some (stored start.env j) else none))
unfolding new_mock set_kv Dict.get_or Dict.get Dict.lookup Dict.empty Dict.put Dict.insert sprint
    validate_keys
bulk_get-stored_example =
    bulk_get-stored session (λ m. m) session-Quiet (λ ks w. (refl, refl, refl))
      ("a" ∷ "c" ∷ "b" ∷ []) (pos 2) start start-Calm (λ k e p. ground (arith, p)) (refl, refl) refl
