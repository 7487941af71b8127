-- ===== src/Services/ScanTests.antt =====
-- A scan by a client above the mock backend, whose callback collects the keys.
use resilix.Prelude.{◌≡◌, refl, Option, none, some, String, List, [], ◌∷◌, arith, false}
use resilix.Prelude.Strings.{sort_strings}
use resilix.Prelude.Int.{pos}
use resilix.Errors.{Error, ok}
use resilix.Breaker
use resilix.Dict
use resilix.Contract.{Backend}
use resilix.Mock
use resilix.Mock.{Mock, new_mock, set_kv}
use resilix.Retry.{World, new_policy}
use resilix.Client.Scanning.{each_key}
use resilix.Services.{Session, Outcome}
use resilix.Services.Quiet.{Calm, Quiet}
use resilix.Services.Scan
use resilix.Services.Scanning.{scan-each_key}
use resilix.Services.Tests.{bare, config}

-- The mock and the keys that the callback has seen.
abbrev Stage : Type 0
Stage = Mock × List String

abbrev store : Backend (World Stage)
store = record (bare {W = World Stage}) {
  scan = λ cursor pattern count w.
      let (r, m) = Mock.Scan.scan (pos 7) cursor count w.env.0 in
      (r, record w { env = (m, w.env.1) });
}

abbrev session : Session Stage
session = record {
  client = record {
    policy = new_policy (pos 3) none;
    before_execute = [];
    after_execute = [];
    middlewares = [];
    acquire = λ op w. (none, w);
    release = λ w. w;
    begin = λ op w. w;
    finish = λ e w. w;
  };
  closed = false;
  backend = store;
  now = λ m. pos 7;
  backoff = λ n w. (pos 1, w);
  wait = λ d w. (none, w);
}

abbrev filled : Mock
filled = set_kv "c" "3" (set_kv "b" "2" (set_kv "a" "1" new_mock))

abbrev start : World Stage
start = record { breaker = some (Breaker.new config); env = (filled, []) }

abbrev collect : String → List String → Option Error × List String
collect k seen = (none, k ∷ seen)

abbrev collect_in : String → World Stage → Option Error × World Stage
collect_in k w = (none, record w { env = (w.env.0, k ∷ w.env.1) })

session-Quiet : Quiet session (λ x. x)
unfolding new_policy
session-Quiet = record {
  is_open = refl;
  no_before = refl;
  no_after = refl;
  no_middleware = refl;
  attempts = 2;
  attempts_pos = refl;
  admits = λ op w. refl;
  acquire_keeps = λ op w. (refl, refl);
  begin_keeps = λ op w. (refl, refl);
  finish_keeps = λ e w. (refl, refl);
  release_keeps = λ w. (refl, refl);
}

start-Calm : Calm start
unfolding Breaker.new
start-Calm b e = ground (arith, e)

-- Pages of two keys.
scan-each_key_example :
    (r : Outcome Stage (Unit {0})) × (Scan.scan session "" (pos 2) collect_in 4 start ≡ some r)
    × (r.0 ≡ some (ok tt))
    × (r.1.env.1 ≡ "c" ∷ "b" ∷ "a" ∷ [])
    × (r.1.env.0.kv ≡ filled.kv)
    × Calm r.1
unfolding each_key new_mock set_kv Dict.empty Dict.put Dict.insert sort_strings Dict.get_or
scan-each_key_example =
    scan-each_key session (λ x. x) session-Quiet "" (pos 2) (λ cursor w. (refl, refl, refl))
      collect_in collect (λ k w. (refl, refl, refl)) 4 start start-Calm (refl, (refl, (refl, tt)))
      (refl, refl) (omega arith)
