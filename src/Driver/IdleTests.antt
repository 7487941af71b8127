-- ===== src/Driver/IdleTests.antt =====
-- A consumer of a stream of the Redis of the tests, in which nothing is found.
use resilix.Prelude.{false, ◌≡◌, refl, some, [], ◌∷◌, arith}
use resilix.Prelude.Int.{pos}
use resilix.Errors.{err, operation, redis_nil, key_not_found, is_redis_nil}
use resilix.Retry.{new_policy, default_classifier}
use resilix.Validation.{validate_string_slice}
use resilix.Services.Tests.{session, start, config}
use resilix.Driver.Tests.{redis, quiet}
use resilix.Driver.Idle.{read_times, idle_reads_open}
use resilix.Services.Messages.{read_group}
use resilix.Mock.Stream.{StreamReadRequest}
use resilix.Breaker
use resilix.Breaker.{Breaker, open_}
use resilix.Breaker.Invariant.{run-IsValid}
use resilix.Driver.Missing.{on_driver}

abbrev request : StreamReadRequest
request = record {
  group = "workers";
  consumer = "a";
  streams = "s" ∷ [];
  ids = ">" ∷ [];
  count = pos 1;
  block = pos 1000000000;
  no_ack = false;
}

idle_reads_open_example :
    ((read_group (on_driver session redis) request start).0
      ≡ some (err (operation "XREADGROUP" ("s" ∷ []) key_not_found)))
    × ((b : Breaker) × ((read_times (on_driver session redis) request 5 start).breaker ≡ some b)
        × (b.state ≡ open_))
unfolding new_policy default_classifier Breaker.new is_redis_nil validate_string_slice Breaker.run
idle_reads_open_example =
    idle_reads_open session redis (λ m. m) quiet refl (λ args w. (redis_nil, refl, refl, refl))
      request refl 4 start (Breaker.new config) refl
      (run-IsValid config [] (omega arith) (omega arith)) refl refl refl
