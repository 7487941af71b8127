-- ===== src/Breaker/Tests.antt =====
-- Runs of a breaker with a threshold of 2, a timeout of 10 and 2 probes.
use resilix.Prelude.{◌≡◌, refl, true, List, [], ◌∷◌, arith, map, ◌⊎◌}
use resilix.Prelude.Int.{pos, negsuc, ◌-ℤ◌, inc64}
use resilix.Breaker.{
  Config, closed, open_, new, Call, allow_call, success_call, failure_call, run, allow,
  record_success, record_failure, call,
}
use resilix.Breaker.Invariant.{IsValid, run-IsValid}
use resilix.Breaker.Trip.{fail_at, trips_at_threshold, admitted, open_refuses}
use resilix.Breaker.HalfOpen.{half_open_allowance, probe_decides}
use resilix.Breaker.Gauge.{gauge, call-gauge}

abbrev cfg : Config
cfg = record {
  failure_threshold = pos 2;
  open_timeout = pos 10;
  half_open_max_requests = pos 2;
  on_state_change = true;
}

-- Two failures, at 1 and at 5.
abbrev tripping : List Call
tripping = failure_call (pos 1) ∷ failure_call (pos 5) ∷ []

-- Then two probes, at 20 and at 21.
abbrev probing : List Call
probing =
    failure_call (pos 1) ∷ failure_call (pos 5) ∷ allow_call (pos 20) ∷ allow_call (pos 21) ∷ []

defaults :
    (new (record {
      failure_threshold = negsuc 3;
      open_timeout = pos 0;
      half_open_max_requests = pos 0;
      on_state_change = true;
    })).cfg.failure_threshold
    ≡ pos 5
unfolding new
defaults = refl

tripped_at_5 : (run tripping (new cfg)).opened_at ≡ pos 5
unfolding run call new record_failure inc64
tripped_at_5 = refl

tripped-IsValid : IsValid (run tripping (new cfg))
tripped-IsValid = run-IsValid cfg tripping (omega arith) (omega arith)

run-IsValid_example : IsValid (run probing (new cfg))
run-IsValid_example = run-IsValid cfg probing (omega arith) (omega arith)

trips_at_threshold_example :
    ((fail_at (pos 1 ∷ []) (new cfg)).state ≡ closed)
    × ((record_failure (pos 5) (fail_at (pos 1 ∷ []) (new cfg))).state ≡ open_)
    × ((record_failure (pos 5) (fail_at (pos 1 ∷ []) (new cfg))).opened_at ≡ pos 5)
unfolding new run
trips_at_threshold_example =
    trips_at_threshold (pos 1 ∷ []) (pos 5) (new cfg)
      (run-IsValid cfg [] (omega arith) (omega arith)) refl refl refl

open_refuses_example :
    (admitted (pos 6 ∷ pos 14 ∷ []) (run tripping (new cfg)) ≡ 0)
    × (run (map allow_call (pos 6 ∷ pos 14 ∷ [])) (run tripping (new cfg)) ≡ run tripping (new cfg))
unfolding run call new record_failure inc64 ◌-ℤ◌
open_refuses_example =
    open_refuses (run tripping (new cfg)) (pos 6 ∷ pos 14 ∷ []) refl (omega arith)

half_open_allowance_example : admitted (pos 15 ∷ pos 16 ∷ pos 17 ∷ []) (run tripping (new cfg)) ≡ 2
unfolding run call new record_failure inc64 ◌-ℤ◌
half_open_allowance_example =
    half_open_allowance (run tripping (new cfg)) (pos 15) (pos 16 ∷ pos 17 ∷ []) 2 tripped-IsValid
      refl (omega arith) refl

probe_decides_example :
    ((record_success (allow (pos 15) (run tripping (new cfg))).1).state ≡ closed)
    × ((record_success (allow (pos 15) (run tripping (new cfg))).1).failures ≡ pos 0)
    × ((record_failure (pos 16) (allow (pos 15) (run tripping (new cfg))).1).state ≡ open_)
    × ((record_failure (pos 16) (allow (pos 15) (run tripping (new cfg))).1).opened_at ≡ pos 16)
unfolding run call new record_failure inc64 ◌-ℤ◌
probe_decides_example =
    probe_decides (run tripping (new cfg)) (pos 15) (pos 16) tripped-IsValid refl (omega arith)

call-gauge_example :
    (gauge (call success_call (run tripping (new cfg)))
      ≡ (call success_call (run tripping (new cfg))).state)
    ⊎ ((success_call ≡ success_call)
        × ((run tripping (new cfg)).state ≡ open_)
        × ((call success_call (run tripping (new cfg))).state ≡ closed)
        × (gauge (call success_call (run tripping (new cfg))) ≡ open_))
unfolding run call new record_failure gauge inc64
call-gauge_example = call-gauge success_call (run tripping (new cfg)) refl refl
