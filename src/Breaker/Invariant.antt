-- ===== src/Breaker/Invariant.antt =====
-- What holds of a breaker between two calls, whatever the calls and the clock.
use resilix.Prelude.{List, [], ◌∷◌, arith}
use resilix.Prelude.Int.{ℤ, Time, pos, ◌≤ℤ◌, ◌<ℤ◌, inc64, max_int64}
use resilix.Breaker.{
  State, Config, Breaker, closed, open_, half_open, new, Call, allow_call, success_call,
  failure_call, call, run, allow, record_success, record_failure,
}

-- A closed breaker's failures lie below the threshold.
abbrev pub IsBelow : State → ℤ → ℤ → Type 0
IsBelow closed failures threshold = (pos 0 ≤ℤ failures) × (failures <ℤ threshold)
IsBelow open_ failures threshold = Unit {0}
IsBelow half_open failures threshold = Unit {0}

pub record IsValid (b : Breaker) : Type 0 where
  pub threshold_pos : pos 0 <ℤ b.cfg.failure_threshold
  pub threshold_int64 : b.cfg.failure_threshold ≤ℤ pos max_int64
  pub timeout_pos : pos 0 <ℤ b.cfg.open_timeout
  pub allowance_pos : pos 0 <ℤ b.cfg.half_open_max_requests
  pub allowance_int64 : b.cfg.half_open_max_requests ≤ℤ pos max_int64
  pub below_threshold : IsBelow b.state b.failures b.cfg.failure_threshold
  pub requests_nonneg : pos 0 ≤ℤ b.half_open_requests
  pub requests_bounded : b.half_open_requests ≤ℤ b.cfg.half_open_max_requests

-- `new` yields a valid breaker from every configuration whose fields are `int64` values.
new-IsValid :
    (cfg : Config)
    → cfg.failure_threshold ≤ℤ pos max_int64
    → cfg.half_open_max_requests ≤ℤ pos max_int64
    → IsValid (new cfg)
unfolding new
new-IsValid cfg h k = ground arith

pub allow-IsValid : {b : Breaker} (now : Time) → IsValid b → IsValid (allow now b).1
unfolding allow inc64
allow-IsValid now v = ground arith

pub record_success-IsValid : {b : Breaker} → IsValid b → IsValid (record_success b)
unfolding record_success
record_success-IsValid v = ground arith

pub record_failure-IsValid : {b : Breaker} (now : Time) → IsValid b → IsValid (record_failure now b)
unfolding record_failure inc64
record_failure-IsValid now v = ground arith

call-IsValid : {b : Breaker} (c : Call) → IsValid b → IsValid (call c b)
unfolding call
call-IsValid (allow_call now) v = allow-IsValid now v
call-IsValid success_call v = record_success-IsValid v
call-IsValid (failure_call now) v = record_failure-IsValid now v

run_from-IsValid : (cs : List Call) {b : Breaker} → IsValid b → IsValid (run cs b)
unfolding run
run_from-IsValid [] v = v
run_from-IsValid (c ∷ cs) v = run_from-IsValid cs (call-IsValid c v)

-- From a new breaker, over every sequence of calls by any goroutines and at any clock readings:
-- a closed breaker's failures lie in [0, threshold), so that its `int64` count never wraps, and
-- the requests counted while half open lie in [0, HalfOpenMaxRequests].
pub run-IsValid :
    (cfg : Config) (cs : List Call)
    → cfg.failure_threshold ≤ℤ pos max_int64
    → cfg.half_open_max_requests ≤ℤ pos max_int64
    → IsValid (run cs (new cfg))
run-IsValid cfg cs h k = run_from-IsValid cs (new-IsValid cfg h k)
