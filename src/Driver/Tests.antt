-- ===== src/Driver/Tests.antt =====
-- A Redis in which no key is found, and whose other commands in a pipeline succeed.
use resilix.Prelude.{◌≡◌, refl, get_elem?, Option, none, some, List, [], ◌∷◌, ◌++◌, map, ap, arith}
use resilix.Prelude.Int.{pos, negsuc}
use resilix.Errors.{Error, err, operation, redis_nil, key_not_found, is_redis_nil, is_word}
use resilix.Retry.{World, new_policy, default_classifier}
use resilix.Validation.{validate_key}
use resilix.Mock.{Mock, text}
use resilix.Mock.Stubs
use resilix.Mock.Pipeline.{PipelineCommand}
use resilix.Services.Kv
use resilix.Services.Pipeline
use resilix.Services.Pipeline.{Builder, built, build_get, build_set, named}
use resilix.Services.Tests.{session, start, start-Calm}
use resilix.Services.Quiet.{Quiet}
use resilix.Services.Permanent.{failed}
use resilix.Contract.{str, results}
use resilix.Driver.Redis.{
  UniversalClient, Queued, pipe_set, pipe_get, Cmder, status_cmd, string_cmd, Executed,
}
use resilix.Driver.Keys
use resilix.Driver.Special.{int8}
use resilix.Driver.Pipelines
use resilix.Driver.Pipelines.{settled, to_command_results, call_of}
use resilix.Driver.Hidden.{HidesNil, driver-HidesNil}
use resilix.Driver.Results.{
  IsPipelined, first_failure, results-by_place, at_place, pipeline-all_or_none, promised, known,
}
use resilix.Driver.Missing.{on_driver, get_missing, pipeline_missing}

abbrev answer : Queued → Cmder
answer (pipe_get key) = record { val = string_cmd ""; err = some redis_nil }
answer _ = record { val = status_cmd "OK"; err = none }

abbrev exec : List Queued → World Mock → Executed (World Mock)
exec queue w = ((map answer queue, first_failure (map answer queue)), w)

abbrev run_body : Option Error × List Queued → World Mock → Executed (World Mock)
run_body (some e, queue) w = (([], some e), w)
run_body (none, queue) w = exec queue w

abbrev pub redis : UniversalClient (World Mock)
redis = record {
  ping = λ s. (err redis_nil, s);
  close = λ s. (err redis_nil, s);
  pool_stats = λ w. Stubs.pool_stats;
  get = λ x. λ s. (err redis_nil, s);
  set = λ x y z. λ s. (err redis_nil, s);
  mget = λ x. λ s. (err redis_nil, s);
  mset = λ x. λ s. (err redis_nil, s);
  del = λ x. λ s. (err redis_nil, s);
  exists = λ x. λ s. (err redis_nil, s);
  expire = λ x y. λ s. (err redis_nil, s);
  ttl = λ x. λ s. (err redis_nil, s);
  incr = λ x. λ s. (err redis_nil, s);
  decr = λ x. λ s. (err redis_nil, s);
  hset = λ x y. λ s. (err redis_nil, s);
  hget = λ x y. λ s. (err redis_nil, s);
  hget_all = λ x. λ s. (err redis_nil, s);
  hmget = λ x y. λ s. (err redis_nil, s);
  hdel = λ x y. λ s. (err redis_nil, s);
  lpush = λ x y. λ s. (err redis_nil, s);
  rpush = λ x y. λ s. (err redis_nil, s);
  lpop = λ x. λ s. (err redis_nil, s);
  rpop = λ x. λ s. (err redis_nil, s);
  lrange = λ x y z. λ s. (err redis_nil, s);
  llen = λ x. λ s. (err redis_nil, s);
  sadd = λ x y. λ s. (err redis_nil, s);
  srem = λ x y. λ s. (err redis_nil, s);
  smembers = λ x. λ s. (err redis_nil, s);
  sismember = λ x y. λ s. (err redis_nil, s);
  scard = λ x. λ s. (err redis_nil, s);
  zadd = λ x y. λ s. (err redis_nil, s);
  zrange_with_scores = λ x y z. λ s. (err redis_nil, s);
  zrev_range_with_scores = λ x y z. λ s. (err redis_nil, s);
  zrem = λ x y. λ s. (err redis_nil, s);
  zscore = λ x y. λ s. (err redis_nil, s);
  publish = λ x y. λ s. (err redis_nil, s);
  subscribe = λ channels w. (0, w);
  pubsub_ping = λ x. λ s. (err redis_nil, s);
  pubsub_close = λ x. λ s. (err redis_nil, s);
  xadd = λ x. λ s. (err redis_nil, s);
  xread_group = λ x. λ s. (err redis_nil, s);
  xack = λ x y z. λ s. (err redis_nil, s);
  xdel = λ x y. λ s. (err redis_nil, s);
  xgroup_create_mk_stream = λ x y z. λ s. (err redis_nil, s);
  eval = λ x y z. λ s. (err redis_nil, s);
  eval_sha = λ x y z. λ s. (err redis_nil, s);
  script_load = λ x. λ s. (err redis_nil, s);
  pipelined = λ body w. run_body (body []) w;
  tx_pipelined = λ body w. run_body (body []) w;
  watch = λ f keys w. f w;
  scan = λ x y z. λ s. (err redis_nil, s);
  geo_add = λ x y. λ s. (err redis_nil, s);
  geo_dist = λ x y z u. λ s. (err redis_nil, s);
  geo_pos = λ x y. λ s. (err redis_nil, s);
  geo_search_location = λ x y. λ s. (err redis_nil, s);
  pfadd = λ x y. λ s. (err redis_nil, s);
  pfcount = λ x. λ s. (err redis_nil, s);
  pfmerge = λ x y. λ s. (err redis_nil, s);
  set_bit = λ x y z. λ s. (err redis_nil, s);
  get_bit = λ x y. λ s. (err redis_nil, s);
  bit_count = λ x y z. λ s. (err redis_nil, s);
  bit_op_and = λ x y. λ s. (err redis_nil, s);
  bit_op_or = λ x y. λ s. (err redis_nil, s);
  bit_op_xor = λ x y. λ s. (err redis_nil, s);
  bit_op_not = λ x y. λ s. (err redis_nil, s);
  bit_pos = λ x y. λ s. (err redis_nil, s);
  bit_pos_span = λ x y z u v. λ s. (err redis_nil, s);
  lmpop = λ x y z. λ s. (err redis_nil, s);
  zmpop = λ x y z. λ s. (err redis_nil, s);
}

run_refused :
    (x : Option Error × List Queued) (e : Error) (w : World Mock)
    → x.0 ≡ some e
    → run_body x w ≡ (([], some e), w)
run_refused (some e', queue) e w h = ap (λ o. (([], o), w)) h
run_refused (none, queue) e w h = ground arith

run_sent :
    (x : Option Error × List Queued) (w : World Mock) → x.0 ≡ none → run_body x w ≡ exec x.1 w
run_sent (some e', queue) w h = ground arith
run_sent (none, queue) w h = refl

redis-IsPipelined : IsPipelined redis.pipelined exec
redis-IsPipelined = record {
  refused = λ body e w h. run_refused (body []) e w h;
  sent = λ body w h. run_sent (body []) w h;
  first = λ queue w. refl;
}

int8_wraps : (int8 (pos 1) ≡ pos 1) × (int8 (pos 200) ≡ negsuc 55) × (int8 (negsuc 128) ≡ pos 127)
unfolding int8
int8_wraps = (refl, refl, refl)

pub quiet : Quiet (on_driver session redis) (λ m. m)
unfolding new_policy
quiet = record {
  is_open = refl;
  no_before = refl;
  no_after = refl;
  no_middleware = refl;
  attempts = 2;
  attempts_pos = refl;
  admits = λ op w. refl;
  acquire_keeps = λ op w. (refl, refl);
  begin_keeps = λ op w. (refl, refl);
  finish_keeps = λ e w. (refl, refl);
  release_keeps = λ w. (refl, refl);
}

driver-HidesNil_example : HidesNil redis
driver-HidesNil_example = driver-HidesNil redis

-- A write and a read of a key that is not there.
abbrev batch : Builder → Builder
batch b = build_get "a" (build_set "b" (text "x") (pos 0) b)

results-by_place_example :
    get_elem? (to_command_results (batch []) (answer (pipe_get "b") ∷ [])) 1
    ≡ at_place (get_elem? (batch []) 1) none
results-by_place_example = results-by_place (batch []) (answer (pipe_get "b") ∷ []) 1

get_missing_example : Kv.get (on_driver session redis) "a" start ≡ (
  some (err (operation "GET" ("a" ∷ []) key_not_found)),
  failed (on_driver session redis) (λ s. str s) (Keys.get redis "a") key_not_found start,
)
unfolding new_policy default_classifier validate_key is_redis_nil
get_missing_example =
    get_missing session redis (λ m. m) quiet refl "a" start start redis_nil start-Calm refl refl
      refl

pipeline_missing_example : Pipeline.pipeline (on_driver session redis) (some batch) start ≡ (
  some (err (operation "PIPELINE" [] key_not_found)),
  failed
      (on_driver session redis)
      (λ l. results l)
      (λ s. settled (Pipelines.pipeline redis (batch []) s))
      key_not_found
      start,
)
unfolding new_policy default_classifier built build_get build_set call_of is_word is_redis_nil
pipeline_missing_example =
    pipeline_missing session redis (λ m. m) quiet refl exec redis-IsPipelined (some batch) start
      start (answer (pipe_set "b" (text "x") (pos 0)) ∷ answer (pipe_get "a") ∷ []) (some redis_nil)
      redis_nil start-Calm refl refl refl refl

-- The batch with a command behind it that the driver does not know.
abbrev strange : List PipelineCommand
strange = batch [] ++ named "LPUSH" ∷ []

pipeline-all_or_none_example :
    (Pipelines.pipeline redis strange start ≡ promised exec strange (known strange) start)
    × (Pipelines.transaction redis [] strange start ≡ promised exec strange (known strange) start)
pipeline-all_or_none_example =
    pipeline-all_or_none redis exec exec redis-IsPipelined redis-IsPipelined strange start
