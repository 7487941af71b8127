-- ===== src/Services/Pipeline.antt =====
-- Pipelines: sdk/go/pipeline.go, and kvService.MSet of sdk/go/services.go, which uses one. A builder
-- is the list of its commands; `snapshot` copies it.
use resilix.Prelude.{String, Bool, Option, none, some, List, [], ◌∷◌, ◌++◌, if◌then◌else◌}
use resilix.Prelude.Int.{ℤ, pos, Duration, leb_ℤ}
use resilix.Errors.{Result}
use resilix.Dict
use resilix.Dict.{Dict}
use resilix.Mock.{Value, printed, ZMember}
use resilix.Mock.Pipeline.{PipelineCommand, CommandResult}
use resilix.Retry.{World}
use resilix.Validation.{validate_map}
use resilix.Contract.{nil, results}
use resilix.Services.{Session, Outcome, send, checked, as_results, ignored}

abbrev pub Builder : Type 0
Builder = List PipelineCommand

-- A command with no more than its name; a nil `any` prints as it does here.
unfoldable pub named : String → PipelineCommand
named name = record {
  name = name;
  key = "";
  keys = [];
  value = printed "<nil>";
  values = Dict.empty;
  ttl = pos 0;
  members = [];
  zmembers = [];
  stream_values = Dict.empty;
  max_len = pos 0;
  approximate = Bool.false;
}

unfoldable pub build_set : String → Value → Duration → Builder → Builder
unfolding named
build_set key value ttl b = b ++ record (named "SET") { key = key; value = value; ttl = ttl } ∷ []

unfoldable pub build_get : String → Builder → Builder
unfolding named
build_get key b = b ++ record (named "GET") { key = key } ∷ []

unfoldable pub build_del : List String → Builder → Builder
unfolding named
build_del keys b = b ++ record (named "DEL") { keys = keys } ∷ []

unfoldable pub build_incr : String → Builder → Builder
unfolding named
build_incr key b = b ++ record (named "INCR") { key = key } ∷ []

unfoldable pub build_decr : String → Builder → Builder
unfolding named
build_decr key b = b ++ record (named "DECR") { key = key } ∷ []

unfoldable pub build_expire : String → Duration → Builder → Builder
unfolding named
build_expire key ttl b = b ++ record (named "EXPIRE") { key = key; ttl = ttl } ∷ []

unfoldable pub build_hset : String → Dict Value → Builder → Builder
unfolding named
build_hset key values b = b ++ record (named "HSET") { key = key; values = values } ∷ []

unfoldable pub build_sadd : String → List String → Builder → Builder
unfolding named
build_sadd key members b = b ++ record (named "SADD") { key = key; members = members } ∷ []

unfoldable pub build_zadd : String → List ZMember → Builder → Builder
unfolding named
build_zadd key members b = b ++ record (named "ZADD") { key = key; zmembers = members } ∷ []

unfoldable pub build_xadd : String → Dict Value → ℤ → Bool → Builder → Builder
unfolding named
build_xadd stream values max_len approximate b =
    b
    ++ record (named "XADD") {
      key = stream;
      stream_values = values;
      max_len = max_len;
      approximate = approximate;
    }
      ∷ []

unfoldable pub build_mset : Dict Value → Builder → Builder
unfolding named
build_mset values b = b ++ record (named "MSET") { values = values } ∷ []

-- `fn(builder)` on an empty builder, unless `fn` is nil.
unfoldable pub built : Option (Builder → Builder) → Builder
built none = []
built (some fn) = fn []

-- The loop of MSet.
unfoldable pub build_sets : List (String × Value) → Duration → Builder → Builder
unfolding build_set
build_sets [] ttl b = b
build_sets ((key, value) ∷ l) ttl b = build_sets l ttl (build_set key value ttl b)

module _ {E : Type 0} (c : Session E) where
  unfoldable pub pipeline : Option (Builder → Builder) → World E → Outcome E (List CommandResult)
  unfolding built
  pipeline fn =
      send c "PIPELINE" "pipeline" [] (λ l. results l) (c.backend.pipeline (built fn)) as_results

  unfoldable pub transaction :
      List String → Option (Builder → Builder) → World E → Outcome E (List CommandResult)
  unfolding built
  transaction watch_keys fn =
      send c "TRANSACTION" "transaction" watch_keys (λ l. results l)
        (c.backend.transaction watch_keys (built fn)) as_results

  -- The results of the commands are dropped.
  unfoldable pub drop_results : Outcome E (List CommandResult) → Outcome E (Unit {0})
  drop_results (none, w) = (none, w)
  drop_results (some (Result.ok l), w) = (some (Result.ok tt), w)
  drop_results (some (Result.err e), w) = (some (Result.err e), w)

  -- MSet with a time to live sets each key in a pipeline, and looks at none of the results.
  unfoldable pub mset : Dict Value → Duration → World E → Outcome E (Unit {0})
  unfolding drop_results build_sets
  mset values ttl = checked c (validate_map "values" values) λ w.
      if leb_ℤ ttl (pos 0)
      then send c "MSET" "kv" [] (λ u. nil) (c.backend.mset values) ignored w
      else drop_results (pipeline (some (λ b. build_sets values.entries ttl b)) w)
