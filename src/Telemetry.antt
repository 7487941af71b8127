-- ===== src/Telemetry.antt =====
-- The recorder: sdk/go/internal/telemetry/recorder.go. A metric is what its calls make of it: a
-- gauge is its value, a counter with labels is the list of the labels that were counted, and a
-- histogram the list of what was observed. The span and the log are left out; the registration
-- of the metrics is in Registry, and here they are new.
pub mod Gauges
pub mod Shown
pub mod Registry
pub mod Sharing
mod Tests
mod RegistryTests
use resilix.Prelude.{
  String, Bool, true, false, ◌≡◌, ℕ, Option, none, some, List, [], ◌∷◌, map, ◌||◌, if◌then◌else◌,
}
use resilix.Prelude.Int.{ℤ, pos, Time, Duration, leb_ℤ, ◌+ℤ◌, ◌-ℤ◌}
use resilix.Errors.{Error, Text, codes, contains, message, to_lower}
use resilix.Dict
use resilix.Dict.{Dict}
use resilix.Breaker.{State, closed, open_, half_open}
use resilix.Mock.Stubs.{PoolStats}

-- The labels of a count: the operation, the status and the type of the error.
pub record Labels : Type 0 where
  pub operation : String
  pub status : String
  pub error_type : String

pub record Recorder : Type 0 where
  pub counter : List Labels
  pub duration : List (String × Duration)
  pub inflight : ℤ
  pub slow_queries : List String
  pub breaker_state : Dict ℤ
  pub pool_hits : ℕ
  pub pool_misses : ℕ
  pub pool_timeouts : ℕ
  pub pool_conns : ℕ
  pub slow_query_threshold : Duration

-- The value that `string(state)` is.
unfoldable pub label : State → String
label closed = "closed"
label open_ = "open"
label half_open = "half_open"

-- The end of `New`: the metrics, with the labels of the breaker's state.
unfoldable pub new : Duration → Recorder
new slow_query_threshold = record {
  counter = [];
  duration = [];
  inflight = pos 0;
  slow_queries = [];
  breaker_state =
      Dict.put (Dict.put (Dict.put Dict.empty "closed" (pos 1)) "open" (pos 0)) "half_open" (pos 0);
  pool_hits = 0;
  pool_misses = 0;
  pool_timeouts = 0;
  pool_conns = 0;
  slow_query_threshold =
      if leb_ℤ slow_query_threshold (pos 0) then pos 150000000 else slow_query_threshold;
}

unfoldable pub record_breaker_state : State → Recorder → Recorder
unfolding label
record_breaker_state state r =
    let zeros =
      Dict.put (Dict.put (Dict.put r.breaker_state "closed" (pos 0)) "open" (pos 0)) "half_open"
        (pos 0) in
    record r { breaker_state = Dict.put zeros (label state) (pos 1) }

unfoldable pub record_pool_stats : PoolStats → Recorder → Recorder
record_pool_stats pool r = record r {
  pool_hits = pool.hits;
  pool_misses = pool.misses;
  pool_timeouts = pool.timeouts;
  pool_conns = pool.total_conns;
}

unfoldable pub classify_text : Text → String
unfolding contains
classify_text msg =
    if contains (codes "timeout") msg
    then "timeout"
    else if contains (codes "connection") msg
    then "connection"
    else if contains (codes "circuit") msg
    then "circuit_open"
    else if contains (codes "key not found") msg
    then "not_found"
    else "other"

unfoldable pub classify_error : Option Error → String
unfolding classify_text message to_lower
classify_error none = ""
classify_error (some e) = classify_text (map to_lower (message e))

-- `Begin` at the start of an operation; its time is kept by the function that it returns.
unfoldable pub begin : Recorder → Recorder
begin r = record r { inflight = r.inflight +ℤ pos 1 }

unfoldable pub status_of : Option Error → String
status_of none = "ok"
status_of (some e) = "error"

-- The function that `Begin` returns.
unfoldable pub finish : String → Time → Time → Option Error → Recorder → Recorder
unfolding status_of classify_error
finish operation start now e r =
    let elapsed = now -ℤ start in
    record r {
      counter =
          record { operation = operation; status = status_of e; error_type = classify_error e }
          ∷ r.counter;
      duration = (operation, elapsed) ∷ r.duration;
      inflight = r.inflight -ℤ pos 1;
      slow_queries =
          if leb_ℤ r.slow_query_threshold elapsed
          then operation ∷ r.slow_queries
          else r.slow_queries;
    }
