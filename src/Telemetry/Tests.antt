-- ===== src/Telemetry/Tests.antt =====
-- A breaker that opens, is probed and closes, and the gauge beside it; the types of some errors.
use resilix.Prelude.{◌≡◌, refl, true, some, List, [], ◌∷◌}
use resilix.Prelude.Int.{pos}
use resilix.Errors.{breaker_open, deadline_exceeded}
use resilix.Breaker
use resilix.Breaker.{
  Config, Call, allow_call, success_call, failure_call, State, closed, half_open, open_,
}
use resilix.Telemetry
use resilix.Telemetry.{classify_error}
use resilix.Telemetry.Gauges.{Shows, record_all, last_of, new-Shows_last}

abbrev cfg : Config
cfg = record {
  failure_threshold = pos 2;
  open_timeout = pos 10;
  half_open_max_requests = pos 2;
  on_state_change = true;
}

abbrev calls : List Call
calls = failure_call (pos 1) ∷ failure_call (pos 5) ∷ allow_call (pos 15) ∷ success_call ∷ []

-- The callbacks told open, half open and closed; the first two have run in the other order.
abbrev reordered : List State
reordered = half_open ∷ open_ ∷ closed ∷ []

-- Where the callback that was told open runs last, the gauge shows a breaker that is closed as open.
stale_gauge : Shows open_ (record_all (half_open ∷ closed ∷ open_ ∷ []) (Telemetry.new (pos 5)))
unfolding last_of
stale_gauge = new-Shows_last (pos 5) (half_open ∷ closed ∷ open_ ∷ [])

deadline_is_other : classify_error (some deadline_exceeded) ≡ "other"
unfolding classify_error
deadline_is_other = refl

refusal_is_circuit : classify_error (some breaker_open) ≡ "circuit_open"
unfolding classify_error
refusal_is_circuit = refl
