-- ===== src/Config/Tests.antt =====
-- A file with a name, an address and a limit, and two overrides.
use resilix.Prelude.{
  ◌≡◌, refl, ℕ, true, false, none, some, List, String, [], ◌∷◌, str_eq, if◌then◌else◌,
}
use resilix.Prelude.Int.{ℤ, pos}
use resilix.Errors.{other, ok, err}
use resilix.Mock.Kv.Views.{elem}
use resilix.Options.{Options, normalize, fill, validate}
use resilix.Options.Tests.{tenths}
use resilix.Config.Decoded.{File, Outside}
use resilix.Config.{text, apply_overrides, settings, build_options, load_options}
use resilix.Options.Normal.{IsFilled}
use resilix.Config.Watch.{
  Op, Event, changed, failing, done, watch, All, loadable, before_end, watch-told,
}
use resilix.Config.Order.{swap, overrides-Reordered}
use resilix.Config.Built.{Describes, build_options-Describes}

abbrev file : File ℤ
file = record {
  app = record { name = "resilix-test" };
  redis = record {
    mode = "";
    addrs = "127.0.0.1:6380" ∷ [];
    master_name = "";
    db = pos 0;
    username = "";
    password = "";
    dial_timeout = "3s";
    read_timeout = "";
    write_timeout = "";
    pool_size = pos 0;
    min_idle_conns = pos 0;
    max_conn_age = "";
    pool_timeout = "";
    conn_max_idle_time = "";
  };
  retry = record {
    max_attempts = pos 0;
    base_delay = "";
    max_delay = "";
    multiplier = pos 0;
    jitter = pos 0;
  };
  breaker = record { failure_threshold = pos 0; open_timeout = ""; half_open_max_requests = pos 0 };
  observability = record { slow_query_threshold = "" };
  runtime = record { max_inflight = pos 32 };
}

-- Every duration is three seconds.
abbrev pub outside : Outside ℤ
outside = record {
  read_file = λ path. ok "";
  ext = λ path. ".yaml";
  yaml = λ payload. ok file;
  json = λ payload. err (other "json");
  getenv = λ name. "";
  atoi = λ s. err (other "atoi");
  parse_duration = λ s. ok (pos 3000000000);
  split = λ s. s ∷ [];
  to_lower = λ s. if str_eq s "REDIS.MODE" then "redis.mode" else s;
}

-- The defaults, but for what the file has, no idle connections and no jitter.
abbrev built : Options ℕ ℤ
built =
    let d = fill tenths 1 2 (settings outside tenths 1 2 file) in
    record d { dial_timeout = pos 3000000000 }

build_options-Describes_example : Describes outside tenths 1 2 file built
unfolding build_options settings normalize fill validate
build_options-Describes_example = build_options-Describes outside tenths 1 2 file built refl

overrides-Reordered_example :
    apply_overrides outside (("app.name", text "x") ∷ ("REDIS.MODE", text "cluster") ∷ []) file
    ≡ apply_overrides outside (("REDIS.MODE", text "cluster") ∷ ("app.name", text "x") ∷ []) file
unfolding elem
overrides-Reordered_example =
    overrides-Reordered outside (("app.name", text "x") ∷ ("REDIS.MODE", text "cluster") ∷ [])
      (("REDIS.MODE", text "cluster") ∷ ("app.name", text "x") ∷ []) file
      (swap ("app.name", text "x") ("REDIS.MODE", text "cluster") []) (refl, (refl, tt))

-- The file is written, its mode is changed, the watcher fails, the file is replaced by one that is
-- not there, and the context ends before it is written again.
abbrev touched : Op
touched = record { create = false; write = true; remove = false; rename = false; chmod = false }

abbrev moded : Op
moded = record { create = false; write = false; remove = false; rename = false; chmod = true }

abbrev events : List (Event ℤ)
events =
    changed touched outside
    ∷ (changed moded outside
        ∷ (failing
            ∷ (changed touched (record outside { read_file = λ path. err (other "gone") })
                ∷ (done ∷ (changed touched outside ∷ [])))))

-- The names of the options that were loaded.
abbrev note : Options ℕ ℤ → List String → List String
note o names = o.name ∷ names

watch-told_example :
    (watch tenths 1 2 "app.yaml" "" [] (some note) none none events []
      ≡ (none, "resilix-test" ∷ []))
    × All (IsFilled {P = ℕ} tenths) (loadable tenths 1 2 "app.yaml" "" [] (before_end events))
unfolding load_options build_options settings normalize fill validate
watch-told_example = watch-told tenths 1 2 "app.yaml" "" [] refl refl note none events []
