-- ===== src/Options/Tests.antt =====
-- Options that are given and filled in.
use resilix.Prelude.{refl, none, [], ℕ}
use resilix.Prelude.Int.{ℤ, pos, negsuc, ltb_ℤ}
use resilix.Options.{Floats, Options, normalize, fill, validate}
use resilix.Options.Normal.{IsFilled, KnownMode, normalize-IsFilled}

-- Tenths.
abbrev pub tenths : Floats ℤ
tenths = record {
  two = pos 20;
  fifth = pos 2;
  below_one = λ x. ltb_ℤ x (pos 10);
  negative = λ x. ltb_ℤ x (pos 0);
}

abbrev pub given : Options ℕ ℤ
given = record {
  name = "";
  mode = "sentinel";
  addrs = [];
  master_name = "m";
  db = pos 0;
  username = "";
  password = "";
  dial_timeout = pos 0;
  read_timeout = negsuc 4;
  write_timeout = pos 7;
  pool_size = pos 0;
  min_idle_conns = pos 0;
  max_conn_age = pos 0;
  pool_timeout = pos 0;
  conn_max_idle_time = pos 0;
  retry = record {
    max_attempts = pos 0;
    base_delay = pos 0;
    max_delay = pos 0;
    multiplier = pos 5;
    jitter = pos 0;
  };
  circuit_breaker = record {
    failure_threshold = pos 9;
    open_timeout = pos 0;
    half_open_max_requests = negsuc 0;
  };
  observability = record { logger = none; registry = none; slow_query_threshold = pos 0 };
  max_inflight = pos 0;
  backend = none;
}

normalize-IsFilled_example :
    IsFilled tenths (normalize tenths 1 2 given).1 × KnownMode (normalize tenths 1 2 given).1
unfolding normalize fill validate
normalize-IsFilled_example = normalize-IsFilled tenths 1 2 refl refl given refl
