-- ===== src/Config.antt =====
-- Configuration: sdk/go/config/config.go. What the code calls of other packages (the file system,
-- the environment, the decoders of YAML and JSON, and the parsers of text) is an argument, Outside.
pub mod Decoded
pub mod Order
pub mod Built
pub mod Filled
pub mod Watch
pub mod Tests
use resilix.Prelude.{
  ◌≡◌, String, Bool, true, false, ◌||◌, not, Option, none, some, List, [], ◌∷◌, str_eq,
  if◌then◌else◌,
}
use Prim.Native.String.{◌++◌ as str_append}
use resilix.Prelude.Int.{ℤ, pos, Duration}
use resilix.Errors.{Error, other, wrapped, Result, ok, err}
use resilix.Config.Decoded.{
  AppConfig, RedisConfig, RetryConfig, BreakerConfig, ObservabilityConfig, RuntimeConfig, File,
  Outside, unsupported_config_extension,
}
use resilix.Options.{
  Floats, RetryPolicy, CircuitBreakerConfig, ObservabilityOptions, Options, default_options,
  normalize,
}

-- A value of an override, by its type.
pub data Setting : Type 0 where
  text : String → Setting
  texts : List String → Setting
  int : ℤ → Setting  -- int, or int64, which `int` does not change
  unknown : Setting

-- `if cast, ok := value.(string); ok`, and the like, over the value that stands.
unfoldable pub text_in : Setting → String → String
text_in (text s) old = s
text_in _ old = old

unfoldable pub texts_in : Setting → List String → List String
texts_in (texts l) old = l
texts_in _ old = old

unfoldable pub int_in : Setting → ℤ → ℤ
int_in (int n) old = n
int_in _ old = old

-- The cases of the switch.
pub data Field : Type 0 where
  app_name redis_mode redis_addrs redis_password runtime_max_inflight no_field : Field

unfoldable pub field_of : String → Field
field_of key =
    if str_eq key "app.name"
    then app_name
    else if str_eq key "redis.mode"
    then redis_mode
    else if str_eq key "redis.addrs"
    then redis_addrs
    else if str_eq key "redis.password"
    then redis_password
    else if str_eq key "runtime.max_inflight"
    then runtime_max_inflight
    else no_field

-- `err == nil` gives the number, and `value != ""` the value.
unfoldable pub parsed_or : ℤ → Result ℤ → ℤ
parsed_or old (ok n) = n
parsed_or old (err e) = old

unfoldable pub set_or : {A : Type 0} → A → String → A → A
set_or old value new = if str_eq value "" then old else new

unfoldable pub and_then : {A B : Type 0} → Result A → (A → Result B) → Result B
and_then (ok a) f = f a
and_then (err e) f = err e

unfoldable pub addrs_in : List String → List String → List String
addrs_in old [] = old
addrs_in old (a ∷ l) = a ∷ l

unfoldable pub normalized : {O : Type 0} → Option Error × O → Result O
normalized (none, o) = ok o
normalized (some e, o) = err e

module _ {F : Type 0} where
  unfoldable pub put : Field → Setting → File F → File F
  unfolding text_in texts_in int_in
  put app_name v f = record f { app = record { name = text_in v f.app.name } }
  put redis_mode v f = record f { redis = record f.redis { mode = text_in v f.redis.mode } }
  put redis_addrs v f = record f { redis = record f.redis { addrs = texts_in v f.redis.addrs } }
  put redis_password v f = record f {
    redis = record f.redis { password = text_in v f.redis.password };
  }
  put runtime_max_inflight v f = record f {
    runtime = record { max_inflight = int_in v f.runtime.max_inflight };
  }
  put no_field v f = f

  module _ (outside : Outside F) where
    unfoldable pub decode : String → String → Result (File F)
    decode extension payload =
        let lower = outside.to_lower extension in
        if str_eq lower ".yaml" || str_eq lower ".yml"
        then outside.yaml payload
        else if str_eq lower ".json"
        then outside.json payload
        else err (wrapped unsupported_config_extension extension)

    unfoldable pub load : String → Result (File F)
    unfolding and_then decode
    load path = and_then (outside.read_file path) λ payload. decode (outside.ext path) payload

    unfoldable pub apply_env : String → File F → File F
    unfolding set_or parsed_or
    apply_env prefix f =
        let p = if str_eq prefix "" then "RESILIX" else prefix in
        let env : String → String = λ name. outside.getenv (str_append p name) in
        let number : String → ℤ → ℤ =
          λ name old. set_or old (env name) (parsed_or old (outside.atoi (env name))) in
        let word : String → String → String = λ name old. set_or old (env name) (env name) in
        record f {
          app = record { name = word "_APP_NAME" f.app.name };
          redis = record f.redis {
            mode = word "_REDIS_MODE" f.redis.mode;
            addrs = set_or f.redis.addrs (env "_REDIS_ADDRS") (outside.split (env "_REDIS_ADDRS"));
            master_name = word "_REDIS_MASTER_NAME" f.redis.master_name;
            db = number "_REDIS_DB" f.redis.db;
            username = word "_REDIS_USERNAME" f.redis.username;
            password = word "_REDIS_PASSWORD" f.redis.password;
            pool_size = number "_REDIS_POOL_SIZE" f.redis.pool_size;
          };
          runtime = record { max_inflight = number "_RUNTIME_MAX_INFLIGHT" f.runtime.max_inflight };
        }

    -- The entries in the order in which the loop meets them.
    unfoldable pub apply_overrides : List (String × Setting) → File F → File F
    unfolding field_of put
    apply_overrides [] f = f
    apply_overrides ((key, value) ∷ l) f =
        apply_overrides l (put (field_of (outside.to_lower key)) value f)

    unfoldable pub parse_duration_or_default : String → Duration → Result Duration
    parse_duration_or_default raw fallback =
        if str_eq raw "" then ok fallback else outside.parse_duration raw

    module _ {P : Type 0} (fl : Floats F) (logger registry : P) where
      -- The assignments that cannot fail.
      unfoldable pub settings : File F → Options P F
      unfolding default_options set_or addrs_in
      settings f =
          let d = default_options fl logger registry in
          record d {
            name = set_or d.name f.app.name f.app.name;
            mode = set_or d.mode f.redis.mode f.redis.mode;
            addrs = addrs_in d.addrs f.redis.addrs;
            master_name = f.redis.master_name;
            db = f.redis.db;
            username = f.redis.username;
            password = f.redis.password;
            pool_size = f.redis.pool_size;
            min_idle_conns = f.redis.min_idle_conns;
            max_inflight = f.runtime.max_inflight;
            retry = record d.retry {
              max_attempts = f.retry.max_attempts;
              multiplier = f.retry.multiplier;
              jitter = f.retry.jitter;
            };
            circuit_breaker = record d.circuit_breaker {
              failure_threshold = f.breaker.failure_threshold;
              half_open_max_requests = f.breaker.half_open_max_requests;
            };
          }

      unfoldable pub build_options : File F → Result (Options P F)
      unfolding settings parse_duration_or_default and_then normalized
      build_options f =
          let o = settings f in
          let read : String → Duration → Result Duration =
            λ raw fallback. parse_duration_or_default raw fallback in
          and_then (read f.redis.dial_timeout o.dial_timeout) λ dial.
            and_then (read f.redis.read_timeout o.read_timeout) λ reading.
              and_then (read f.redis.write_timeout o.write_timeout) λ writing.
                and_then (read f.redis.max_conn_age o.max_conn_age) λ age.
                  and_then (read f.redis.pool_timeout o.pool_timeout) λ pool.
                    and_then (read f.redis.conn_max_idle_time o.conn_max_idle_time) λ idle.
                      and_then (read f.retry.base_delay o.retry.base_delay) λ base.
                        and_then (read f.retry.max_delay o.retry.max_delay) λ longest.
                          and_then (read f.breaker.open_timeout o.circuit_breaker.open_timeout)
                            λ open_for.
                              and_then
                                (read f.observability.slow_query_threshold
                                  o.observability.slow_query_threshold)
                                λ slow. normalized (
                                  normalize fl logger registry (record o {
                                    dial_timeout = dial;
                                    read_timeout = reading;
                                    write_timeout = writing;
                                    max_conn_age = age;
                                    pool_timeout = pool;
                                    conn_max_idle_time = idle;
                                    retry = record o.retry {
                                      base_delay = base;
                                      max_delay = longest;
                                    };
                                    circuit_breaker = record o.circuit_breaker {
                                      open_timeout = open_for;
                                    };
                                    observability = record o.observability {
                                      slow_query_threshold = slow;
                                    };
                                  }))

      unfoldable pub load_options : String → String → List (String × Setting) → Result (Options P F)
      unfolding load apply_env apply_overrides build_options
      load_options path env_prefix overrides =
          and_then (load path)
            λ f. build_options (apply_overrides overrides (apply_env env_prefix f))
