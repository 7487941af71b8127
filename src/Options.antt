-- ===== src/Options.antt =====
-- The options of a client: sdk/go/options.go. Values that belong to other packages (a logger, a
-- registry, a backend) are of a type that is an argument, and so are float64 numbers with the tests
-- that the code makes of them.
pub mod Normal
pub mod Universal
pub mod Tests
use resilix.Prelude.{
  ◌*◌, String, Bool, true, false, ◌&&◌, ◌||◌, not, Option, none, some, List, [], ◌∷◌, str_eq,
  if◌then◌else◌,
}
use resilix.Prelude.Int.{ℤ, pos, Duration, leb_ℤ, ltb_ℤ}
use resilix.Errors.{Error, wrapped, validation, invalid_configuration}

-- The float64 numbers that the options use.
pub record Floats (F : Type 0) : Type 0 where
  pub two : F
  pub fifth : F  -- 0.2
  pub below_one : F → Bool
  pub negative : F → Bool

pub record RetryPolicy (F : Type 0) : Type 0 where
  pub max_attempts : ℤ
  pub base_delay : Duration
  pub max_delay : Duration
  pub multiplier : F
  pub jitter : F

pub record CircuitBreakerConfig : Type 0 where
  pub failure_threshold : ℤ
  pub open_timeout : Duration
  pub half_open_max_requests : ℤ

pub record ObservabilityOptions (P : Type 0) : Type 0 where
  pub logger : Option P
  pub registry : Option P
  pub slow_query_threshold : Duration

-- The TLS settings, middleware, hooks, plugins and the admission controller, which Normalize does not
-- read, are left out.
pub record Options (P F : Type 0) : Type 0 where
  pub name : String
  pub mode : String
  pub addrs : List String
  pub master_name : String
  pub db : ℤ
  pub username : String
  pub password : String
  pub dial_timeout : Duration
  pub read_timeout : Duration
  pub write_timeout : Duration
  pub pool_size : ℤ
  pub min_idle_conns : ℤ
  pub max_conn_age : Duration
  pub pool_timeout : Duration
  pub conn_max_idle_time : Duration
  pub retry : RetryPolicy F
  pub circuit_breaker : CircuitBreakerConfig
  pub observability : ObservabilityOptions P
  pub max_inflight : ℤ
  pub backend : Option P

abbrev pub milliseconds : ℤ → Duration
milliseconds (pos n) = pos (n * 1000000)
milliseconds n = n

-- `x <= 0` gives the default.
unfoldable pub positive_or : ℤ → ℤ → ℤ
positive_or default x = if leb_ℤ x (pos 0) then default else x

-- `x < 0` gives the default.
unfoldable pub nonneg_or : ℤ → ℤ → ℤ
nonneg_or default x = if ltb_ℤ x (pos 0) then default else x

-- `x == ""` gives the default.
unfoldable pub text_or : String → String → String
text_or default x = if str_eq x "" then default else x

unfoldable pub addrs_or : List String → List String → List String
addrs_or default [] = default
addrs_or default (x ∷ l) = x ∷ l

-- A nil pointer gives the default.
unfoldable pub pointer_or : {P : Type 0} → Option P → Option P → Option P
pointer_or default none = default
pointer_or default (some p) = some p

unfoldable pub is_nil : {P : Type 0} → Option P → Bool
is_nil none = true
is_nil (some p) = false

unfoldable pub is_empty : List String → Bool
is_empty [] = true
is_empty (x ∷ l) = false

module _ {P F : Type 0} (fl : Floats F) (logger registry : P) where
  -- `slog.Default()` and `prometheus.NewRegistry()` are arguments.
  unfoldable pub default_options : Options P F
  default_options = record {
    name = "resilix-go";
    mode = "standalone";
    addrs = "127.0.0.1:6379" ∷ [];
    master_name = "";
    db = pos 0;
    username = "";
    password = "";
    dial_timeout = milliseconds (pos 2000);
    read_timeout = milliseconds (pos 500);
    write_timeout = milliseconds (pos 500);
    pool_size = pos 64;
    min_idle_conns = pos 8;
    max_conn_age = milliseconds (pos 600000);
    pool_timeout = milliseconds (pos 1000);
    conn_max_idle_time = milliseconds (pos 300000);
    retry = record {
      max_attempts = pos 3;
      base_delay = milliseconds (pos 25);
      max_delay = milliseconds (pos 750);
      multiplier = fl.two;
      jitter = fl.fifth;
    };
    circuit_breaker = record {
      failure_threshold = pos 5;
      open_timeout = milliseconds (pos 5000);
      half_open_max_requests = pos 1;
    };
    observability = record {
      logger = some logger;
      registry = some registry;
      slow_query_threshold = milliseconds (pos 150);
    };
    max_inflight = pos 1024;
    backend = none;
  }

  unfoldable pub apply_core_defaults : Options P F → Options P F → Options P F
  unfolding positive_or nonneg_or text_or addrs_or
  apply_core_defaults d o = record o {
    name = text_or d.name o.name;
    mode = text_or d.mode o.mode;
    addrs = addrs_or d.addrs o.addrs;
    dial_timeout = positive_or d.dial_timeout o.dial_timeout;
    read_timeout = positive_or d.read_timeout o.read_timeout;
    write_timeout = positive_or d.write_timeout o.write_timeout;
    pool_size = positive_or d.pool_size o.pool_size;
    min_idle_conns = nonneg_or d.min_idle_conns o.min_idle_conns;
    max_conn_age = positive_or d.max_conn_age o.max_conn_age;
    pool_timeout = positive_or d.pool_timeout o.pool_timeout;
    conn_max_idle_time = positive_or d.conn_max_idle_time o.conn_max_idle_time;
    max_inflight = positive_or d.max_inflight o.max_inflight;
  }

  unfoldable pub apply_observability_defaults : Options P F → Options P F → Options P F
  unfolding positive_or pointer_or
  apply_observability_defaults d o = record o {
    observability = record {
      logger = pointer_or d.observability.logger o.observability.logger;
      registry = pointer_or d.observability.registry o.observability.registry;
      slow_query_threshold =
          positive_or d.observability.slow_query_threshold o.observability.slow_query_threshold;
    };
  }

  unfoldable pub apply_retry_defaults : Options P F → Options P F → Options P F
  unfolding positive_or
  apply_retry_defaults d o = record o {
    retry = record {
      max_attempts = positive_or d.retry.max_attempts o.retry.max_attempts;
      base_delay = positive_or d.retry.base_delay o.retry.base_delay;
      max_delay = positive_or d.retry.max_delay o.retry.max_delay;
      multiplier =
          if fl.below_one o.retry.multiplier then d.retry.multiplier else o.retry.multiplier;
      jitter = if fl.negative o.retry.jitter then d.retry.jitter else o.retry.jitter;
    };
  }

  unfoldable pub apply_circuit_breaker_defaults : Options P F → Options P F → Options P F
  unfolding positive_or
  apply_circuit_breaker_defaults d o = record o {
    circuit_breaker = record {
      failure_threshold =
          positive_or d.circuit_breaker.failure_threshold o.circuit_breaker.failure_threshold;
      open_timeout = positive_or d.circuit_breaker.open_timeout o.circuit_breaker.open_timeout;
      half_open_max_requests =
          positive_or d.circuit_breaker.half_open_max_requests
            o.circuit_breaker.half_open_max_requests;
    };
  }

  unfoldable pub validate : Options P F → Option Error
  unfolding is_nil is_empty
  validate o =
      if is_nil o.backend && is_empty o.addrs
      then some (wrapped invalid_configuration "redis address is required")
      else if not
          (str_eq o.mode "standalone" || str_eq o.mode "cluster" || str_eq o.mode "sentinel")
      then some (validation "mode" "unsupported redis mode")
      else if str_eq o.mode "sentinel" && str_eq o.master_name ""
      then some (validation "master_name" "master name is required for sentinel mode")
      else none

  -- The options behind the four steps.
  unfoldable pub fill : Options P F → Options P F
  unfolding default_options apply_core_defaults apply_observability_defaults apply_retry_defaults
      apply_circuit_breaker_defaults
  fill o =
      let d = default_options in
      apply_circuit_breaker_defaults d
        (apply_retry_defaults d (apply_observability_defaults d (apply_core_defaults d o)))

  -- The options are changed where they stand, also where an error is returned.
  unfoldable pub normalize : Options P F → Option Error × Options P F
  unfolding fill validate
  normalize o = let o' = fill o in (validate o', o')
