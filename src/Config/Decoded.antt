-- ===== src/Config/Decoded.antt =====
-- The file that sdk/go/config/config.go reads, and the functions of other packages that it calls.
use resilix.Prelude.{String, List}
use resilix.Prelude.Int.{ℤ, Duration}
use resilix.Errors.{Error, other, Result}

pub record AppConfig : Type 0 where
  pub name : String

pub record RedisConfig : Type 0 where
  pub mode : String
  pub addrs : List String
  pub master_name : String
  pub db : ℤ
  pub username : String
  pub password : String
  pub dial_timeout : String
  pub read_timeout : String
  pub write_timeout : String
  pub pool_size : ℤ
  pub min_idle_conns : ℤ
  pub max_conn_age : String
  pub pool_timeout : String
  pub conn_max_idle_time : String

pub record RetryConfig (F : Type 0) : Type 0 where
  pub max_attempts : ℤ
  pub base_delay : String
  pub max_delay : String
  pub multiplier : F
  pub jitter : F

pub record BreakerConfig : Type 0 where
  pub failure_threshold : ℤ
  pub open_timeout : String
  pub half_open_max_requests : ℤ

pub record ObservabilityConfig : Type 0 where
  pub slow_query_threshold : String

pub record RuntimeConfig : Type 0 where
  pub max_inflight : ℤ

pub record File (F : Type 0) : Type 0 where
  pub app : AppConfig
  pub redis : RedisConfig
  pub retry : RetryConfig F
  pub breaker : BreakerConfig
  pub observability : ObservabilityConfig
  pub runtime : RuntimeConfig

-- `os.ReadFile`, `filepath.Ext`, the two decoders, `os.Getenv`, `strconv.Atoi`,
-- `time.ParseDuration`, `strings.Split` at the commas, and `strings.ToLower`.
pub record Outside (F : Type 0) : Type 0 where
  pub read_file : String → Result String
  pub ext : String → String
  pub yaml : String → Result (File F)
  pub json : String → Result (File F)
  pub getenv : String → String
  pub atoi : String → Result ℤ
  pub parse_duration : String → Result Duration
  pub split : String → List String
  pub to_lower : String → String

-- ErrUnsupportedConfigExtension
abbrev pub unsupported_config_extension : Error
unsupported_config_extension = other "resilix/config: unsupported config extension"
