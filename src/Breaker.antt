-- ===== src/Breaker.antt =====
-- The circuit breaker: sdk/go/internal/breaker/breaker.go. A method holds the mutex from its first
-- line to its return, so it is one step on the state; the clock's reading is an argument.
pub mod Invariant
pub mod Trip
pub mod HalfOpen
pub mod Gauge
mod Tests
use resilix.Prelude.{◌≡◌, Bool, true, false, Option, none, some, List, [], ◌∷◌, ◌++◌, if◌then◌else◌}
use resilix.Prelude.Int.{ℤ, pos, Time, Duration, ◌-ℤ◌, leb_ℤ, inc64}
use resilix.Errors.{Error, breaker_open}

pub data State : Type 0 where
  closed open_ half_open : State

pub record Config : Type 0 where
  pub failure_threshold : ℤ
  pub open_timeout : Duration
  pub half_open_max_requests : ℤ
  pub on_state_change : Bool  -- whether a callback is set

pub record Breaker : Type 0 where
  pub cfg : Config
  pub state : State
  pub failures : ℤ
  pub opened_at : Time
  pub half_open_requests : ℤ
  pub notified : List (State × State)  -- the callbacks started, in order; each is a goroutine

-- 5 * time.Second
abbrev pub default_open_timeout : Duration
default_open_timeout = pos 5000000000

unfoldable pub with_defaults : Config → Config
with_defaults cfg = record {
  failure_threshold = if leb_ℤ cfg.failure_threshold (pos 0) then pos 5 else cfg.failure_threshold;
  open_timeout = if leb_ℤ cfg.open_timeout (pos 0) then default_open_timeout else cfg.open_timeout;
  half_open_max_requests =
      if leb_ℤ cfg.half_open_max_requests (pos 0) then pos 1 else cfg.half_open_max_requests;
  on_state_change = cfg.on_state_change;
}

-- A zero `openedAt` is never read before it is set: only an open breaker reads it.
unfoldable pub new : Config → Breaker
unfolding with_defaults
new cfg = record {
  cfg = with_defaults cfg;
  state = closed;
  failures = pos 0;
  opened_at = pos 0;
  half_open_requests = pos 0;
  notified = [];
}

unfoldable pub notify_state_change : State → State → Breaker → Breaker
notify_state_change from to b =
    if b.cfg.on_state_change then record b { notified = b.notified ++ (from, to) ∷ [] } else b

-- The test and the count behind the switch, for a breaker that is half open.
unfoldable pub admit_half_open : Breaker → Option Error × Breaker
admit_half_open b =
    if leb_ℤ b.cfg.half_open_max_requests b.half_open_requests
    then (some breaker_open, b)
    else (none, record b { half_open_requests = inc64 b.half_open_requests })

allow_in : State → Time → Breaker → Option Error × Breaker
unfolding admit_half_open notify_state_change
allow_in closed now b = (none, b)
allow_in open_ now b =
    if leb_ℤ b.cfg.open_timeout (now -ℤ b.opened_at)
    then admit_half_open (
        notify_state_change open_ half_open
          (record b { state = half_open; half_open_requests = pos 0 }))
    else (some breaker_open, b)
allow_in half_open now b = admit_half_open b

unfoldable pub allow : Time → Breaker → Option Error × Breaker
unfolding allow_in
allow now b = allow_in b.state now b

settle_in : State → Breaker → Breaker
unfolding notify_state_change
settle_in half_open b = notify_state_change half_open closed (record b { state = closed })
settle_in _ b = record b { state = closed }

unfoldable pub record_success : Breaker → Breaker
unfolding settle_in
record_success b = settle_in b.state (record b { failures = pos 0; half_open_requests = pos 0 })

-- The count of a failure, and the trip when it reaches the threshold.
count_failure : Time → Breaker → Breaker
unfolding notify_state_change
count_failure now b =
    if leb_ℤ b.cfg.failure_threshold b.failures
    then notify_state_change closed open_ (record b { state = open_; opened_at = now })
    else b

fail_in : State → Time → Breaker → Breaker
unfolding notify_state_change count_failure
fail_in half_open now b =
    notify_state_change half_open open_
      (record b { state = open_; opened_at = now; half_open_requests = pos 0 })
fail_in _ now b = count_failure now (record b { failures = inc64 b.failures })

unfoldable pub record_failure : Time → Breaker → Breaker
unfolding fail_in
record_failure now b = fail_in b.state now b

-- A method call of any goroutine. The mutex orders them, so a run of the program is a list.
pub data Call : Type 0 where
  allow_call : Time → Call
  success_call : Call
  failure_call : Time → Call

unfoldable pub call : Call → Breaker → Breaker
call (allow_call now) b = (allow now b).1
call success_call b = record_success b
call (failure_call now) b = record_failure now b

unfoldable pub run : List Call → Breaker → Breaker
run [] b = b
run (c ∷ cs) b = run cs (call c b)
