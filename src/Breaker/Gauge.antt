-- ===== src/Breaker/Gauge.antt =====
-- The state that the callbacks report, against the state that the breaker is in. The client's
-- callback sets a gauge to the state that it is told (client.go; telemetry/recorder.go).
use resilix.Prelude.{◌≡◌, refl, true, List, [], ◌∷◌, ◌++◌, arith, ◌⊎◌}
use resilix.Breaker.{
  State, closed, open_, half_open, Breaker, Call, allow_call, success_call, failure_call, call,
  allow, record_success, record_failure,
}

-- The last state that a callback was started with, and `closed` before any: the gauge starts there.
unfoldable pub last_to : List (State × State) → State
last_to [] = closed
last_to ((from, to) ∷ []) = to
last_to (n ∷ ns) = last_to ns

unfoldable pub gauge : Breaker → State
unfolding last_to
gauge b = last_to b.notified

last_to-append :
    (ns : List (State × State)) (from to : State) → last_to (ns ++ (from, to) ∷ []) ≡ to
unfolding last_to
last_to-append [] from to = refl
last_to-append (n ∷ []) from to = refl
last_to-append (n ∷ m ∷ ns) from to = last_to-append (m ∷ ns) from to

-- Each call keeps the reported state equal to the breaker's, but for one: a success recorded while
-- the breaker is open closes it and reports nothing, so `open` stays reported.
pub call-gauge :
    (c : Call) (b : Breaker)
    → b.cfg.on_state_change ≡ true
    → gauge b ≡ b.state
    → (gauge (call c b) ≡ (call c b).state)
      ⊎ ((c ≡ success_call)
          × (b.state ≡ open_)
          × ((call c b).state ≡ closed)
          × (gauge (call c b) ≡ open_))
unfolding call gauge allow record_success record_failure
call-gauge (allow_call now) b on g = ground (arith, last_to-append b.notified open_ half_open)
call-gauge success_call b on g = ground (arith, last_to-append b.notified half_open closed)
call-gauge (failure_call now) b on g =
    ground
      (arith, last_to-append b.notified half_open open_, last_to-append b.notified closed open_)
