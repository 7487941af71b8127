-- ===== src/Services/Types/More.antt =====
-- The results of the services of messages, scripts, positions, bits and pipelines have their types.
use resilix.Prelude.{
  ◌≡◌, none, Option-cases, Bool-cases, inl, inr, arith, refl, Bool, Option, some, List, String,
}
use resilix.Prelude.Int.{ℤ, pos, leb_ℤ, Duration}
use resilix.Errors.{Result, ok, err}
use resilix.Validation.{validate_map}
use resilix.Mock.Pipeline.{CommandResult}
use resilix.Dict.{Dict}
use resilix.Mock.{Value}
use resilix.Mock.Stream.{StreamReadRequest}
use resilix.Contract.{
  nil, str, int, float, bool, subscription, responses, results, positions, found, GeoMember,
  GeoSearchQuery,
}
use resilix.Services.{
  Session, Outcome, checked, as_str, as_int, as_float, as_bool, as_subscription, as_responses,
  as_results, as_positions, as_found, as_any, ignored,
}
use resilix.Services.Types.{IsPlain, Returns, send-returns, checked-returns}
use resilix.Services.Messages
use resilix.Services.Script
use resilix.Services.Special
use resilix.Services.Pipeline
use resilix.Services.Pipeline.{Builder, built, build_sets}

-- The methods of channels and streams.
pub record MessagesReturns {E : Type 0} (c : Session E) : Type 0 where
  pub publish : (channel : String) (payload : Value) → Returns (Messages.publish c channel payload)
  pub subscribe : (channels : List String) → Returns (Messages.subscribe c channels)
  pub add :
      (stream : String) (vs : Dict Value) (max_len : ℤ) (approximate : Bool)
      → Returns (Messages.add c stream vs max_len approximate)
  pub read_group : (request : StreamReadRequest) → Returns (Messages.read_group c request)
  pub ack :
      (stream : String) (group : String) (ids : List String)
      → Returns (Messages.ack c stream group ids)
  pub delete : (stream : String) (ids : List String) → Returns (Messages.delete c stream ids)
  pub create_group :
      (stream : String) (group : String) (start : String)
      → Returns (Messages.create_group c stream group start)

pub messages-return : {E : Type 0} (c : Session E) → IsPlain c → MessagesReturns c
unfolding Messages.publish Messages.subscribe Messages.add Messages.read_group Messages.ack
    Messages.delete Messages.create_group as_int as_subscription as_str as_responses ignored
messages-return c plain = record {
  publish = λ channel payload.
      checked-returns c plain (λ n. int n) (c.backend.publish channel payload) as_int
        (λ a. (a, refl)) _ _ _ _;
  subscribe = λ channels.
      checked-returns c plain (λ s. subscription s) (c.backend.subscribe channels) as_subscription
        (λ a. (a, refl)) _ _ _ _;
  add = λ stream vs max_len approximate.
      checked-returns c plain (λ s. str s) (c.backend.xadd stream vs max_len approximate) as_str
        (λ a. (a, refl)) _ _ _ _;
  read_group = λ request.
      checked-returns c plain (λ l. responses l) (c.backend.xread_group request) as_responses
        (λ a. (a, refl)) _ _ _ _;
  ack = λ stream group ids.
      checked-returns c plain (λ n. int n) (c.backend.xack stream group ids) as_int (λ a. (a, refl))
        _ _ _ _;
  delete = λ stream ids.
      checked-returns c plain (λ n. int n) (c.backend.xdel stream ids) as_int (λ a. (a, refl)) _ _ _
        _;
  create_group = λ stream group start.
      checked-returns c plain (λ u. nil) (c.backend.xgroup_create_mk_stream stream group start)
        ignored (λ a. (tt, refl)) _ _ _ _;
}

-- The methods of scripts.
pub record ScriptReturns {E : Type 0} (c : Session E) : Type 0 where
  pub eval :
      (script : String) (keys : List String) (args : List Value)
      → Returns (Script.eval c script keys args)
  pub eval_sha :
      (sha : String) (keys : List String) (args : List Value)
      → Returns (Script.eval_sha c sha keys args)
  pub load : (script : String) → Returns (Script.load c script)

pub script-return : {E : Type 0} (c : Session E) → IsPlain c → ScriptReturns c
unfolding Script.eval Script.eval_sha Script.load as_any as_str
script-return c plain = record {
  eval = λ script keys args.
      send-returns c plain (λ a. a) (c.backend.eval script keys args) as_any (λ a. (some a, refl)) _
        _ _;
  eval_sha = λ sha keys args.
      send-returns c plain (λ a. a) (c.backend.eval_sha sha keys args) as_any (λ a. (some a, refl))
        _ _ _;
  load = λ script.
      send-returns c plain (λ s. str s) (c.backend.script_load script) as_str (λ a. (a, refl)) _ _
        _;
}

-- The methods of positions, HyperLogLogs and bits.
pub record SpecialReturns {E : Type 0} (c : Session E) : Type 0 where
  pub geo_add : (key : String) (members : List GeoMember) → Returns (Special.geo_add c key members)
  pub geo_dist :
      (key : String) (member1 : String) (member2 : String) (unit : String)
      → Returns (Special.geo_dist c key member1 member2 unit)
  pub geo_pos : (key : String) (members : List String) → Returns (Special.geo_pos c key members)
  pub geo_search :
      (key : String) (query : GeoSearchQuery) → Returns (Special.geo_search c key query)
  pub hll_add : (key : String) (elements : List Value) → Returns (Special.hll_add c key elements)
  pub hll_count : (keys : List String) → Returns (Special.hll_count c keys)
  pub hll_merge : (dest : String) (keys : List String) → Returns (Special.hll_merge c dest keys)
  pub bit_set :
      (key : String) (offset : ℤ) (value : ℤ) → Returns (Special.bit_set c key offset value)
  pub bit_get : (key : String) (offset : ℤ) → Returns (Special.bit_get c key offset)
  pub bit_count : (key : String) (start : ℤ) (end : ℤ) → Returns (Special.bit_count c key start end)
  pub bit_op :
      (op : String) (dest : String) (keys : List String) → Returns (Special.bit_op c op dest keys)
  pub bit_pos :
      (key : String) (bit : ℤ) (places : List ℤ) → Returns (Special.bit_pos c key bit places)

pub special-return : {E : Type 0} (c : Session E) → IsPlain c → SpecialReturns c
unfolding Special.geo_add Special.geo_dist Special.geo_pos Special.geo_search Special.hll_add
    Special.hll_count Special.hll_merge Special.bit_set Special.bit_get Special.bit_count
    Special.bit_op Special.bit_pos as_int as_float as_positions as_found as_bool ignored
special-return c plain = record {
  geo_add = λ key members.
      checked-returns c plain (λ n. int n) (c.backend.geo_add key members) as_int (λ a. (a, refl)) _
        _ _ _;
  geo_dist = λ key member1 member2 unit.
      checked-returns c plain (λ x. float x) (c.backend.geo_dist key member1 member2 unit) as_float
        (λ a. (a, refl)) _ _ _ _;
  geo_pos = λ key members.
      checked-returns c plain (λ l. positions l) (c.backend.geo_pos key members) as_positions
        (λ a. (a, refl)) _ _ _ _;
  geo_search = λ key query.
      checked-returns c plain (λ l. found l) (c.backend.geo_search key query) as_found
        (λ a. (a, refl)) _ _ _ _;
  hll_add = λ key elements.
      checked-returns c plain (λ b. bool b) (c.backend.pfadd key elements) as_bool (λ a. (a, refl))
        _ _ _ _;
  hll_count = λ keys.
      checked-returns c plain (λ n. int n) (c.backend.pfcount keys) as_int (λ a. (a, refl)) _ _ _ _;
  hll_merge = λ dest keys.
      checked-returns c plain (λ u. nil) (c.backend.pfmerge dest keys) ignored (λ a. (tt, refl)) _ _
        _ _;
  bit_set = λ key offset value.
      checked-returns c plain (λ n. int n) (c.backend.set_bit key offset value) as_int
        (λ a. (a, refl)) _ _ _ _;
  bit_get = λ key offset.
      checked-returns c plain (λ n. int n) (c.backend.get_bit key offset) as_int (λ a. (a, refl)) _
        _ _ _;
  bit_count = λ key start end.
      checked-returns c plain (λ n. int n) (c.backend.bit_count key start end) as_int
        (λ a. (a, refl)) _ _ _ _;
  bit_op = λ op dest keys.
      checked-returns c plain (λ n. int n) (c.backend.bit_op op dest keys) as_int (λ a. (a, refl)) _
        _ _ _;
  bit_pos = λ key bit places.
      checked-returns c plain (λ n. int n) (c.backend.bit_pos key bit places) as_int
        (λ a. (a, refl)) _ _ _ _;
}

-- The methods of pipelines.
pub record PipelineReturns {E : Type 0} (c : Session E) : Type 0 where
  pub pipeline : (fn : Option (Builder → Builder)) → Returns (Pipeline.pipeline c fn)
  pub transaction :
      (watch_keys : List String) (fn : Option (Builder → Builder))
      → Returns (Pipeline.transaction c watch_keys fn)
  pub mset : (pairs : Dict Value) (ttl : Duration) → Returns (Pipeline.mset c pairs ttl)

pipeline-returns :
    {E : Type 0} (c : Session E)
    → IsPlain c
    → (fn : Option (Builder → Builder)) → Returns (Pipeline.pipeline c fn)
unfolding Pipeline.pipeline as_results
pipeline-returns c plain fn =
    send-returns c plain (λ l. results l) (c.backend.pipeline (built fn)) as_results
      (λ a. (a, refl)) _ _ _

drop-returns :
    {E : Type 0} (c : Session E) (r : Outcome E (List CommandResult))
    → ((x : Result (List CommandResult)) × (r.0 ≡ some x))
    → (y : Result (Unit {0})) × ((Pipeline.drop_results c r).0 ≡ some y)
unfolding Pipeline.drop_results
drop-returns c (none, w) (x, e) = ground (arith, e)
drop-returns c (some (ok l), w) h = (ok tt, refl)
drop-returns c (some (err e), w) h = (err e, refl)

-- MSet in both of its ways, one command and the pipeline.
mset-returns :
    {E : Type 0} (c : Session E)
    → IsPlain c
    → (pairs : Dict Value) (ttl : Duration) → Returns (Pipeline.mset c pairs ttl)
unfolding Pipeline.mset
mset-returns c plain pairs ttl w = elim (Option-cases (validate_map "values" pairs)) [
  | inr (e, bad) ↦ (err e, unfold checked in rw bad refl)
  | inl good ↦
      unfold checked in
      rw good (elim (Bool-cases (leb_ℤ ttl (pos 0))) [
        | inl lasting ↦ rw lasting (
            unfold ignored in
            send-returns c plain (λ u. nil) (c.backend.mset pairs) ignored (λ a. (tt, refl)) _ _ _
              w)
        | inr passing ↦ rw passing (
            drop-returns c _
              ((pipeline-returns c plain (some (λ b. build_sets pairs.entries ttl b))) w))
      ])
]

pub pipeline-return : {E : Type 0} (c : Session E) → IsPlain c → PipelineReturns c
unfolding Pipeline.transaction as_results
pipeline-return c plain = record {
  pipeline = pipeline-returns c plain;
  transaction = λ watch_keys fn.
      send-returns c plain (λ l. results l) (c.backend.transaction watch_keys (built fn)) as_results
        (λ a. (a, refl)) _ _ _;
  mset = mset-returns c plain;
}
