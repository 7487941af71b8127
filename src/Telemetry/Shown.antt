-- ===== src/Telemetry/Shown.antt =====
-- The breaker of sdk/go/internal/breaker/breaker.go and the gauge of
-- sdk/go/internal/telemetry/recorder.go, which client.go joins by a callback. Each callback runs in a goroutine of
-- its own, so that callbacks may run later than they were started and in another order.
use resilix.Prelude.{Bool, true, false, not, ◌&&◌, List, [], ◌∷◌, map}
use resilix.Breaker
use resilix.Breaker.{State, open_, half_open, Breaker, Call, success_call, call}
use resilix.Telemetry

-- Whether a call is a success that is recorded while the breaker is open.
unfoldable pub is_late : Call → State → Bool
is_late success_call open_ = true
is_late _ _ = false

unfoldable pub none_late : List Call → Breaker → Bool
unfolding is_late
none_late [] b = true
none_late (c ∷ cs) b = let rest = none_late cs (call c b) in not (is_late c b.state) && rest

-- The states that the callbacks are told, in the order in which they were started.
abbrev pub told : Breaker → List State
told b = map (λ n. n.1) b.notified
