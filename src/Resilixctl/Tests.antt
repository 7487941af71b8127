-- ===== src/Resilixctl/Tests.antt =====
-- A check of the health of a client above the mock backend.
use resilix.Prelude.{ℕ, ◌≡◌, refl, false, none, some, [], ◌∷◌}
use resilix.Prelude.Int.{ℤ, pos}
use resilix.Errors.{ok}
use resilix.Breaker.{closed}
use resilix.Breaker
use resilix.Mock.{Mock}
use resilix.Mock.Stubs
use resilix.Options.{normalize}
use resilix.Options.Tests.{tenths}
use resilix.Config.Tests.{outside}
use resilix.Services.Tests.{store, start}
use resilix.Services.LifeTests.{parts}
use resilix.Services.Lifecycle.{Parts, HealthStatus, new_client}
use resilix.Services.Lifecycle.{health, close}
use resilix.Services.{send, ignored}
use resilix.Client.{execute}
use resilix.Retry.{do_}
use resilix.Breaker.{allow}
use resilix.Resilixctl.{Flags, encoded, run}
use resilix.Resilixctl.Exit.{Served, run-zero}

abbrev answering : Parts Mock ℕ ℤ
answering = record parts { driver = λ o. record store { ping = λ s. (ok tt, s) } }

abbrev flags : Flags
flags = record { config_path = ""; addr = "127.0.0.1:6379"; show_version = false }

abbrev status : HealthStatus
status = record {
  status = "ok";
  timestamp = pos 7;
  pool = Stubs.pool_stats;
  breaker_state = closed;
}

ran :
    (run answering tenths 1 2 outside (λ pool w. w) (λ s. none) flags start).0
    ≡ some (0, encoded status ∷ [])
unfolding run new_client normalize health send execute do_ allow Breaker.new ignored
    Breaker.record_success close
ran = refl

run-zero_example :
    Served answering tenths 1 2 outside
      (λ pool w. w)
      (λ s. none)
      flags
      start
      (encoded status ∷ [])
      (run answering tenths 1 2 outside (λ pool w. w) (λ s. none) flags start).1
run-zero_example =
    run-zero answering tenths 1 2 outside (λ pool w. w) (λ s. none) flags start
      (encoded status ∷ []) refl ran
