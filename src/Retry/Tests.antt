-- ===== src/Retry/Tests.antt =====
-- Runs of the executor. The environment is the number of calls of the command so far, which serves
-- as the clock too.
use resilix.Prelude.{
  ℕ, suc, ◌≤◌, ◌<◌, ◌≡◌, refl, true, none, some, [], ◌∷◌, arith, map, leb, if◌then◌else◌,
}
use resilix.Prelude.Int.{pos, ◌-ℤ◌}
use resilix.Errors.{ok, err, key_not_found, deadline_exceeded, canceled, breaker_open, other}
use resilix.Breaker.{Config, Breaker, new, open_, half_open, allow, allow_call, run}
use resilix.Breaker.Invariant.{IsValid, run-IsValid}
use resilix.Breaker.Trip.{admitted}
use resilix.Retry.{Policy, Caller, new_policy, default_classifier, ask, do_}
use resilix.Retry.Attempts.{Counts, do_calls}
use resilix.Retry.Outcomes.{Settled, do_settles}
use resilix.Retry.Shared.{asked, at, do_times, misses_open_breaker, canceled_probe_sticks}

abbrev cfg : Config
cfg = record {
  failure_threshold = pos 2;
  open_timeout = pos 10;
  half_open_max_requests = pos 1;
  on_state_change = true;
}

-- Three attempts, with the default classifier.
abbrev policy : Policy
policy = new_policy (pos 0) none

-- A deadline passes twice, then the command succeeds.
abbrev flaky : Caller ℕ ℕ
flaky = record {
  now = λ n. pos n;
  fn = λ w. (if leb 2 w.env then ok w.env else err deadline_exceeded, record w { env = suc w.env });
  backoff = λ n w. (pos n, w);
  wait = λ d w. (none, w);
}

-- Every read misses.
abbrev missing : Caller ℕ ℕ
missing = record {
  now = λ n. pos n;
  fn = λ w. (err key_not_found, w);
  backoff = λ n w. (pos n, w);
  wait = λ d w. (none, w);
}

-- The deadline passes, and the context ends in the wait.
abbrev abandoned : Caller ℕ ℕ
abandoned = record {
  now = λ n. pos n;
  fn = λ w. (err deadline_exceeded, w);
  backoff = λ n w. (pos n, w);
  wait = λ d w. (some canceled, w);
}

unclassified : default_classifier (other "read: Connection reset by peer") ≡ true
unfolding default_classifier
unclassified = refl

third_time : (do_ flaky policy (at (new cfg) 0)).0 ≡ ok (some 2)
unfolding do_ new new_policy default_classifier allow
third_time = refl

new-IsValid_example : IsValid (new cfg)
unfolding run
new-IsValid_example = run-IsValid cfg [] (omega arith) (omega arith)

flaky-Counts : Counts flaky (λ n. n)
flaky-Counts = record { by_fn = λ w. refl; by_backoff = λ n w. refl; by_wait = λ d w. refl }

do_calls_example :
    (0 < (do_ flaky policy (at (new cfg) 0)).1.env)
    × ((do_ flaky policy (at (new cfg) 0)).1.env ≤ 3)
unfolding new_policy ask allow new
do_calls_example = do_calls flaky (λ n. n) flaky-Counts policy (at (new cfg) 0) 2 refl refl

do_settles_example :
    Settled flaky (do_ flaky policy (at (new cfg) 0)).0 (do_ flaky policy (at (new cfg) 0)).1
unfolding new_policy ask allow new
do_settles_example = do_settles flaky policy (at (new cfg) 0) 2 refl refl

misses_open_breaker_example :
    (do_ missing policy (do_times missing policy 2 (at (new cfg) 7))).0 ≡ err breaker_open
unfolding new_policy new default_classifier
misses_open_breaker_example =
    misses_open_breaker missing policy 2 refl key_not_found refl (λ w. refl) 1 (new cfg) 7
      new-IsValid_example refl refl refl

abbrev tripped : Breaker
tripped = record (new cfg) { state = open_; failures = pos 2; opened_at = pos 5 }

tripped-IsValid : IsValid tripped
unfolding new
tripped-IsValid = ground arith

canceled_probe_sticks_example :
    (do_ abandoned policy (at tripped 20) ≡ (err canceled, at (asked abandoned tripped 20) 20))
    × ((asked abandoned tripped 20).state ≡ half_open)
    × (admitted (pos 90 ∷ []) (asked abandoned tripped 20) ≡ 0)
    × (run (map allow_call (pos 90 ∷ [])) (asked abandoned tripped 20) ≡ asked abandoned tripped 20)
unfolding new_policy new default_classifier allow ◌-ℤ◌
canceled_probe_sticks_example =
    canceled_probe_sticks abandoned policy 2 refl tripped 20 20 20 20 deadline_exceeded canceled
      (pos 1) (pos 90 ∷ []) tripped-IsValid refl (omega arith) refl (omega arith) refl refl refl
      refl
