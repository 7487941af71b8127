-- ===== src/Breaker/Trip.antt =====
-- When the breaker opens, what it refuses while open, and how many probes it admits.
use resilix.Prelude.{ℕ, suc, ◌+◌, ◌≡◌, refl, List, [], ◌∷◌, map, length, Option, none, some, arith}
use resilix.Prelude.Int.{Time, pos, ◌-ℤ◌, ◌<ℤ◌, inc64}
use resilix.Errors.{Error, breaker_open}
use resilix.Breaker.{Breaker, closed, open_, allow_call, call, run, allow, record_failure}
use resilix.Breaker.Invariant.{IsValid, record_failure-IsValid}

-- `record_failure` at each of the readings.
pub fail_at : List Time → Breaker → Breaker
fail_at [] b = b
fail_at (t ∷ ts) b = fail_at ts (record_failure t b)

module _ (b : Breaker) (t : Time) (v : IsValid b) (shut : b.state ≡ closed) where
  pub record_failure_below :
      (n k : ℕ)
      → b.failures ≡ pos n
      → b.cfg.failure_threshold ≡ pos (suc (suc n + k))
      → ((record_failure t b).state ≡ closed)
        × ((record_failure t b).failures ≡ pos (suc n))
        × ((record_failure t b).cfg ≡ b.cfg)
  unfolding record_failure inc64
  record_failure_below n k f e = ground (arith, v.threshold_int64)

  pub record_failure_last :
      (n : ℕ)
      → b.failures ≡ pos n
      → b.cfg.failure_threshold ≡ pos (suc n)
      → ((record_failure t b).state ≡ open_)
        × ((record_failure t b).opened_at ≡ t)
        × ((record_failure t b).cfg ≡ b.cfg)
  unfolding record_failure inc64
  record_failure_last n f e = ground (arith, v.threshold_int64)

trips_from :
    (ts : List Time) (t : Time) (b : Breaker) (n : ℕ)
    → IsValid b
    → b.state ≡ closed
    → b.failures ≡ pos n
    → b.cfg.failure_threshold ≡ pos (suc (n + length ts))
    → ((fail_at ts b).state ≡ closed)
      × ((record_failure t (fail_at ts b)).state ≡ open_)
      × ((record_failure t (fail_at ts b)).opened_at ≡ t)
unfolding fail_at
trips_from [] t b n v s f e =
    let (o, at, _) = record_failure_last b t v s n f (ground arith) in (s, o, at)
trips_from (u ∷ ts) t b n v s f e =
    let (s', f', c') = record_failure_below b u v s n (length ts) f (ground arith) in
    trips_from ts t (record_failure u b) (suc n) (record_failure-IsValid u v) s' f'
      (ground (arith, c'))

-- A closed breaker with no failure counted opens at the failure whose number is the threshold and
-- at none before it, and remembers when.
pub trips_at_threshold :
    (ts : List Time) (t : Time) (b : Breaker)
    → IsValid b
    → b.state ≡ closed
    → b.failures ≡ pos 0
    → b.cfg.failure_threshold ≡ pos (suc (length ts))
    → ((fail_at ts b).state ≡ closed)
      × ((record_failure t (fail_at ts b)).state ≡ open_)
      × ((record_failure t (fail_at ts b)).opened_at ≡ t)
trips_at_threshold ts t b v s f e = trips_from ts t b 0 v s f (ground arith)

-- Every reading lies less than `open_timeout` after the breaker opened.
abbrev pub AllEarly : Breaker → List Time → Type 0
AllEarly b [] = Unit {0}
AllEarly b (t ∷ ts) = (t -ℤ b.opened_at <ℤ b.cfg.open_timeout) × AllEarly b ts

-- One more, if the error is nil.
abbrev pub count_nil : Option Error → ℕ → ℕ
count_nil none n = suc n
count_nil (some e) n = n

-- How many of the calls of `Allow`, at these readings, return nil.
unfoldable pub admitted : List Time → Breaker → ℕ
admitted [] b = 0
admitted (t ∷ ts) b = count_nil (allow t b).0 (admitted ts (allow t b).1)

pub allow_closed : (b : Breaker) (t : Time) → b.state ≡ closed → allow t b ≡ (none, b)
unfolding allow
allow_closed b t s = ground arith

pub allow_early :
    (b : Breaker) (t : Time)
    → b.state ≡ open_
    → t -ℤ b.opened_at <ℤ b.cfg.open_timeout
    → allow t b ≡ (some breaker_open, b)
unfolding allow
allow_early b t s h = ground arith

-- Until the timeout has passed an open breaker refuses every request and does not change.
pub open_refuses :
    (b : Breaker) (ts : List Time)
    → b.state ≡ open_
    → AllEarly b ts
    → (admitted ts b ≡ 0) × (run (map allow_call ts) b ≡ b)
unfolding admitted run call
open_refuses b [] s h = (refl, refl)
open_refuses b (t ∷ ts) s h = ground (arith, allow_early b t s h.0, open_refuses b ts s h.1)
