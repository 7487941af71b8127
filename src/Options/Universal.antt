-- ===== src/Options/Universal.antt =====
-- The options of the client of Redis: universalOptions of sdk/go/options.go.
use resilix.Prelude.{String, List}
use resilix.Prelude.Int.{ℤ, Duration}
use resilix.Options.{Options}

-- The fields of `redis.UniversalOptions` that are set, without the TLS settings.
pub record UniversalOptions : Type 0 where
  pub addrs : List String
  pub master_name : String
  pub db : ℤ
  pub username : String
  pub password : String
  pub dial_timeout : Duration
  pub read_timeout : Duration
  pub write_timeout : Duration
  pub pool_size : ℤ
  pub min_idle_conns : ℤ
  pub conn_max_lifetime : Duration
  pub pool_timeout : Duration
  pub conn_max_idle_time : Duration

unfoldable pub universal_options : {P F : Type 0} → Options P F → UniversalOptions
universal_options o = record {
  addrs = o.addrs;
  master_name = o.master_name;
  db = o.db;
  username = o.username;
  password = o.password;
  dial_timeout = o.dial_timeout;
  read_timeout = o.read_timeout;
  write_timeout = o.write_timeout;
  pool_size = o.pool_size;
  min_idle_conns = o.min_idle_conns;
  conn_max_lifetime = o.max_conn_age;
  pool_timeout = o.pool_timeout;
  conn_max_idle_time = o.conn_max_idle_time;
}
