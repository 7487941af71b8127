-- ===== src/Services/Closed/More.antt =====
-- The methods of scripts, positions, bits and pipelines on a client that is closed.
use resilix.Prelude.{
  Bool-cases, inl, inr, ◌≡◌, refl, true, Option, none, some, List, [], ◌∷◌, String,
}
use resilix.Prelude.Int.{leb_ℤ, pos, ℤ, Duration}
use resilix.Dict.{Dict}
use resilix.Mock.{Value}
use resilix.Contract.{
  nil, str, int, float, bool, results, positions, found, GeoMember, GeoSearchQuery,
}
use resilix.Services.{
  Session, as_str, as_int, as_float, as_bool, as_results, as_positions, as_found, as_any, ignored,
}
use resilix.Services.Closed.{Refuses, send-closed, checked-Refuses, checked-closed}
use resilix.Services.Script
use resilix.Services.Special
use resilix.Services.Pipeline
use resilix.Services.Pipeline.{Builder, built, build_sets}
use resilix.Validation.{validate_key, validate_keys, validate_map}

-- The methods of scripts.
pub record ScriptClosed {E : Type 0} (c : Session E) : Type 0 where
  pub eval :
      (script : String) (keys : List String) (args : List Value)
      → Refuses none (Script.eval c script keys args)
  pub eval_sha :
      (sha : String) (keys : List String) (args : List Value)
      → Refuses none (Script.eval_sha c sha keys args)
  pub load : (script : String) → Refuses none (Script.load c script)

pub script-closed : {E : Type 0} (c : Session E) → c.closed ≡ true → ScriptClosed c
unfolding Script.eval Script.eval_sha Script.load
script-closed c h = record {
  eval = λ script keys args.
      send-closed c h "EVAL" "script" keys (λ a. a) (c.backend.eval script keys args) as_any;
  eval_sha = λ sha keys args.
      send-closed c h "EVALSHA" "script" keys (λ a. a) (c.backend.eval_sha sha keys args) as_any;
  load = λ script.
      send-closed c h "SCRIPTLOAD" "script" [] (λ s. str s) (c.backend.script_load script) as_str;
}

-- The methods of positions, HyperLogLogs and bits.
pub record SpecialClosed {E : Type 0} (c : Session E) : Type 0 where
  pub geo_add :
      (key : String) (members : List GeoMember)
      → Refuses (validate_key key) (Special.geo_add c key members)
  pub geo_dist :
      (key : String) (member1 : String) (member2 : String) (unit : String)
      → Refuses (validate_key key) (Special.geo_dist c key member1 member2 unit)
  pub geo_pos :
      (key : String) (members : List String)
      → Refuses (validate_key key) (Special.geo_pos c key members)
  pub geo_search :
      (key : String) (query : GeoSearchQuery)
      → Refuses (validate_key key) (Special.geo_search c key query)
  pub hll_add :
      (key : String) (elements : List Value)
      → Refuses (validate_key key) (Special.hll_add c key elements)
  pub hll_count : (keys : List String) → Refuses (validate_keys keys) (Special.hll_count c keys)
  pub hll_merge :
      (dest : String) (keys : List String)
      → Refuses (validate_key dest) (Special.hll_merge c dest keys)
  pub bit_set :
      (key : String) (offset : ℤ) (value : ℤ)
      → Refuses (validate_key key) (Special.bit_set c key offset value)
  pub bit_get :
      (key : String) (offset : ℤ) → Refuses (validate_key key) (Special.bit_get c key offset)
  pub bit_count :
      (key : String) (start : ℤ) (end : ℤ)
      → Refuses (validate_key key) (Special.bit_count c key start end)
  pub bit_op :
      (op : String) (dest : String) (keys : List String)
      → Refuses (validate_key dest) (Special.bit_op c op dest keys)
  pub bit_pos :
      (key : String) (bit : ℤ) (places : List ℤ)
      → Refuses (validate_key key) (Special.bit_pos c key bit places)

pub special-closed : {E : Type 0} (c : Session E) → c.closed ≡ true → SpecialClosed c
unfolding Special.geo_add Special.geo_dist Special.geo_pos Special.geo_search Special.hll_add
    Special.hll_count Special.hll_merge Special.bit_set Special.bit_get Special.bit_count
    Special.bit_op Special.bit_pos
special-closed c h = record {
  geo_add = λ key members.
      checked-closed c h (validate_key key) "GEOADD" "geo" (key ∷ []) (λ n. int n)
        (c.backend.geo_add key members) as_int;
  geo_dist = λ key member1 member2 unit.
      checked-closed c h (validate_key key) "GEODIST" "geo" (key ∷ []) (λ x. float x)
        (c.backend.geo_dist key member1 member2 unit) as_float;
  geo_pos = λ key members.
      checked-closed c h (validate_key key) "GEOPOS" "geo" (key ∷ []) (λ l. positions l)
        (c.backend.geo_pos key members) as_positions;
  geo_search = λ key query.
      checked-closed c h (validate_key key) "GEOSEARCH" "geo" (key ∷ []) (λ l. found l)
        (c.backend.geo_search key query) as_found;
  hll_add = λ key elements.
      checked-closed c h (validate_key key) "PFADD" "hll" (key ∷ []) (λ b. bool b)
        (c.backend.pfadd key elements) as_bool;
  hll_count = λ keys.
      checked-closed c h (validate_keys keys) "PFCOUNT" "hll" keys (λ n. int n)
        (c.backend.pfcount keys) as_int;
  hll_merge = λ dest keys.
      checked-closed c h (validate_key dest) "PFMERGE" "hll" (dest ∷ keys) (λ u. nil)
        (c.backend.pfmerge dest keys) ignored;
  bit_set = λ key offset value.
      checked-closed c h (validate_key key) "SETBIT" "bit" (key ∷ []) (λ n. int n)
        (c.backend.set_bit key offset value) as_int;
  bit_get = λ key offset.
      checked-closed c h (validate_key key) "GETBIT" "bit" (key ∷ []) (λ n. int n)
        (c.backend.get_bit key offset) as_int;
  bit_count = λ key start end.
      checked-closed c h (validate_key key) "BITCOUNT" "bit" (key ∷ []) (λ n. int n)
        (c.backend.bit_count key start end) as_int;
  bit_op = λ op dest keys.
      checked-closed c h (validate_key dest) "BITOP" "bit" (dest ∷ keys) (λ n. int n)
        (c.backend.bit_op op dest keys) as_int;
  bit_pos = λ key bit places.
      checked-closed c h (validate_key key) "BITPOS" "bit" (key ∷ []) (λ n. int n)
        (c.backend.bit_pos key bit places) as_int;
}

-- The methods of pipelines.
pub record PipelineClosed {E : Type 0} (c : Session E) : Type 0 where
  pub pipeline : (fn : Option (Builder → Builder)) → Refuses none (Pipeline.pipeline c fn)
  pub transaction :
      (watch_keys : List String) (fn : Option (Builder → Builder))
      → Refuses none (Pipeline.transaction c watch_keys fn)
  pub mset :
      (pairs : Dict Value) (ttl : Duration)
      → Refuses (validate_map "values" pairs) (Pipeline.mset c pairs ttl)

-- MSet refuses in both of its ways, one command and the pipeline.
mset-closed :
    {E : Type 0} (c : Session E)
    → c.closed ≡ true
    → (pairs : Dict Value) (ttl : Duration)
    → Refuses (validate_map "values" pairs) (Pipeline.mset c pairs ttl)
unfolding Pipeline.mset Pipeline.pipeline Pipeline.drop_results
mset-closed c h pairs ttl =
    let fn : Option (Builder → Builder) = some (λ b. build_sets pairs.entries ttl b) in
    checked-Refuses c h (validate_map "values" pairs) _ λ w. elim (Bool-cases (leb_ℤ ttl (pos 0))) [
      | inl lasting ↦
          rw lasting (send-closed c h "MSET" "kv" [] (λ u. nil) (c.backend.mset pairs) ignored w)
      | inr passing ↦
          rw
            (
              passing,
              send-closed c h "PIPELINE" "pipeline" [] (λ l. results l)
                  (c.backend.pipeline (built fn)) as_results w,
            )
            refl
    ]

pub pipeline-closed : {E : Type 0} (c : Session E) → c.closed ≡ true → PipelineClosed c
unfolding Pipeline.pipeline Pipeline.transaction
pipeline-closed c h = record {
  pipeline = λ fn.
      send-closed c h "PIPELINE" "pipeline" [] (λ l. results l) (c.backend.pipeline (built fn))
        as_results;
  transaction = λ watch_keys fn.
      send-closed c h "TRANSACTION" "transaction" watch_keys (λ l. results l)
        (c.backend.transaction watch_keys (built fn)) as_results;
  mset = λ pairs ttl. mset-closed c h pairs ttl;
}
