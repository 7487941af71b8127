-- ===== src/Retry/Shared.antt =====
-- What calls of `Do` come to in the breaker that they share.
use resilix.Prelude.{ℕ, zero, suc, ◌+◌, ◌≡◌, refl, true, false, none, some, List, map, arith, ◌<◌}
use resilix.Prelude.Int.{pos, Time, Duration, -ℤ_parts, ◌-ℤ◌, ◌<ℤ◌, ◌≤ℤ◌}
use resilix.Errors.{Error, err, breaker_open}
use resilix.Breaker.{Breaker, closed, open_, half_open, allow, allow_call, record_failure, run}
use resilix.Breaker.Invariant.{IsValid, allow-IsValid, record_failure-IsValid}
use resilix.Breaker.Trip.{
  allow_closed, allow_early, admitted, record_failure_below, record_failure_last,
}
use resilix.Breaker.HalfOpen.{half_open_stuck, first_probe}
use resilix.Retry.{Policy, World, Caller, ask, fail, do_}
use resilix.Retry.Outcomes.{do-permanent, do-canceled}

-- Calls of `Do` one after the other, their results dropped.
pub do_times : {E A : Type 0} → Caller E A → Policy → ℕ → World E → World E
do_times c p zero w = w
do_times c p (suc n) w = do_times c p n (do_ c p w).1

abbrev pub at : {E : Type 0} → Breaker → E → World E
at b env = record { breaker = some b; env = env }

-- The breaker behind the question with which `Do` starts.
abbrev pub asked : {E A : Type 0} → Caller E A → Breaker → E → Breaker
asked c b env = (allow (c.now env) b).1

module _ {E A : Type 0} (c : Caller E A) where
  ask-at :
      (b : Breaker) (env : E)
      → ask c (at b env) ≡ ((allow (c.now env) b).0, at (allow (c.now env) b).1 env)
  unfolding ask
  ask-at b env = refl

  ask_closed : (b : Breaker) (env : E) → b.state ≡ closed → ask c (at b env) ≡ (none, at b env)
  unfolding ask
  ask_closed b env s = rw (allow_closed b (c.now env) s)

  ask_early :
      (b : Breaker) (env : E)
      → b.state ≡ open_
      → c.now env -ℤ b.opened_at <ℤ b.cfg.open_timeout
      → ask c (at b env) ≡ (some breaker_open, at b env)
  unfolding ask
  ask_early b env s h = rw (allow_early b (c.now env) s h)

  do_early :
      (p : Policy) (b : Breaker) (env : E)
      → b.state ≡ open_
      → c.now env -ℤ b.opened_at <ℤ b.cfg.open_timeout
      → do_ c p (at b env) ≡ (err breaker_open, at b env)
  unfolding do_
  do_early p b env s h = ground (arith, ask_early b env s h)

module _ {E A : Type 0} (c : Caller E A) (p : Policy) (m : ℕ) (pm : p.max_attempts ≡ pos (suc m))
    (e : Error) (refuse : p.classifier e ≡ false)
    (misses : (w : World E) → c.fn w ≡ (err e, w)) where
  do_miss :
      (b : Breaker) (env : E)
      → b.state ≡ closed
      → do_ c p (at b env) ≡ (err e, at (record_failure (c.now env) b) env)
  unfolding fail
  do_miss b env s =
      do-permanent c p m pm (at b env) (at b env) e (rw (ask_closed c b env s))
        (rw (ask_closed c b env s) (misses (at b env))) refuse

  misses_from :
      (k n : ℕ) (b : Breaker) (env : E)
      → IsValid b
      → b.state ≡ closed
      → b.failures ≡ pos n
      → b.cfg.failure_threshold ≡ pos (suc (n + k))
      → (do_ c p (do_times c p (suc k) (at b env))).0 ≡ err breaker_open
  unfolding do_times
  misses_from zero n b env v s f th =
      let t = c.now env in
      let (o, when, same) = record_failure_last b t v s n f (ground arith) in
      rw (do_miss b env s, do_times)
        (rw
          (do_early c p (record_failure t b) env o
            (ground (arith, when, same, v.timeout_pos, -ℤ_parts t t)))
          refl)
  misses_from (suc k) n b env v s f th =
      let t = c.now env in
      let (s', f', same) = record_failure_below b t v s n k f (ground arith) in
      rw (do_miss b env s, do_times)
        (misses_from k (suc n) (record_failure t b) env (record_failure-IsValid t v) s' f'
          (ground (arith, same)))

  -- Commands that fail with an error which is not retried (as a read of a missing key does, under
  -- the default classifier) trip a closed breaker: after as many as the threshold says, one behind
  -- the other, the next call is refused, though the backend answered each of them.
  pub misses_open_breaker :
      (k : ℕ) (b : Breaker) (env : E)
      → IsValid b
      → b.state ≡ closed
      → b.failures ≡ pos 0
      → b.cfg.failure_threshold ≡ pos (suc k)
      → (do_ c p (do_times c p (suc k) (at b env))).0 ≡ err breaker_open
  misses_open_breaker k b env v s f th = misses_from k 0 b env v s f (ground arith)

module _ {E A : Type 0} (c : Caller E A) (p : Policy) (m : ℕ)
    (pm : p.max_attempts ≡ pos (suc m)) where
  -- A call of Do that the breaker admits as the first probe behind its timeout, whose first attempt
  -- fails with an error that is retried, and whose context ends in the wait behind it, returns the
  -- error of the context and is never reported. Where HalfOpenMaxRequests is 1, the breaker stays half
  -- open behind it and refuses every later request, at every reading of the clock. (At least two
  -- attempts; nothing but this call changes the breaker meanwhile.)
  pub canceled_probe_sticks :
      (b : Breaker) (env env1 env2 env3 : E) (e x : Error) (d : Duration) (ts : List Time)
      → IsValid b
      → b.state ≡ open_
      → b.cfg.open_timeout ≤ℤ c.now env -ℤ b.opened_at
      → b.cfg.half_open_max_requests ≡ pos 1
      → 0 < m
      → c.fn (at (asked c b env) env) ≡ (err e, at (asked c b env) env1)
      → p.classifier e ≡ true
      → c.backoff 1 (at (asked c b env) env1) ≡ (d, at (asked c b env) env2)
      → c.wait d (at (asked c b env) env2) ≡ (some x, at (asked c b env) env3)
      → (do_ c p (at b env) ≡ (err x, at (asked c b env) env3))
        × ((asked c b env).state ≡ half_open)
        × (admitted ts (asked c b env) ≡ 0)
        × (run (map allow_call ts) (asked c b env) ≡ asked c b env)
  canceled_probe_sticks b env env1 env2 env3 e x d ts v s late one more ran retry back stop =
      let t = c.now env in
      let b' = (allow t b).1 in
      let (free, s', f', same) = first_probe b t v s late in
      let (stuck, still) =
        half_open_stuck b' ts (allow-IsValid t v) s' (ground (arith, f', same)) in
      (
        do-canceled c p m pm (at b env) (at b' env1) (at b' env2) (at b' env3) e x d more
            (rw (ask-at c b env) free) (rw (ask-at c b env) ran) retry back stop,
        s',
        stuck,
        still,
      )
