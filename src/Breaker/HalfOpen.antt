-- ===== src/Breaker/HalfOpen.antt =====
-- A half-open breaker: how many requests it admits, what ends the state, and what does not.
use resilix.Prelude.{
  ℕ, zero, suc, ◌+◌, ◌≡◌, refl, List, [], ◌∷◌, map, length, none, some, arith, min,
}
use resilix.Prelude.Int.{Time, pos, ◌-ℤ◌, ◌≤ℤ◌, inc64}
use resilix.Errors.{breaker_open}
use resilix.Breaker.{
  Breaker, closed, open_, half_open, allow_call, call, run, allow, record_success, record_failure,
}
use resilix.Breaker.Invariant.{IsValid, allow-IsValid}
use resilix.Breaker.Trip.{admitted}

module _ (b : Breaker) (t : Time) (v : IsValid b) (half : b.state ≡ half_open) where
  allow_free :
      (r k : ℕ)
      → b.half_open_requests ≡ pos r
      → b.cfg.half_open_max_requests ≡ pos (r + suc k)
      → ((allow t b).0 ≡ none)
        × ((allow t b).1.state ≡ half_open)
        × ((allow t b).1.half_open_requests ≡ pos (suc r))
        × ((allow t b).1.cfg ≡ b.cfg)
  unfolding allow inc64
  allow_free r k f e = ground (arith, v.allowance_int64)

  allow_full :
      b.half_open_requests ≡ b.cfg.half_open_max_requests → allow t b ≡ (some breaker_open, b)
  unfolding allow
  allow_full e = ground arith

-- With its allowance used up, a half-open breaker refuses every request, at every reading of the
-- clock, and does not change: no timeout leads out of the state.
pub half_open_stuck :
    (b : Breaker) (ts : List Time)
    → IsValid b
    → b.state ≡ half_open
    → b.half_open_requests ≡ b.cfg.half_open_max_requests
    → (admitted ts b ≡ 0) × (run (map allow_call ts) b ≡ b)
unfolding admitted run call
half_open_stuck b [] v s e = (refl, refl)
half_open_stuck b (t ∷ ts) v s e = ground (arith, allow_full b t v s e, half_open_stuck b ts v s e)

admits_rest :
    (ts : List Time) (b : Breaker) (r k : ℕ)
    → IsValid b
    → b.state ≡ half_open
    → b.half_open_requests ≡ pos r
    → b.cfg.half_open_max_requests ≡ pos (r + k)
    → admitted ts b ≡ min (length ts) k
unfolding admitted
admits_rest [] b r k v s f e = omega arith
admits_rest (t ∷ ts) b r zero v s f e =
    let (none_admitted, _) = half_open_stuck b (t ∷ ts) v s (ground arith) in
    ground (arith, none_admitted)
admits_rest (t ∷ ts) b r (suc k) v s f e =
    let (free, s', f', c') = allow_free b t v s r k f e in
    let rest =
      admits_rest ts (allow t b).1 (suc r) k (allow-IsValid t v) s' f' (ground (arith, c')) in
    ground (arith, free, rest)

pub first_probe :
    (b : Breaker) (t : Time)
    → IsValid b
    → b.state ≡ open_
    → b.cfg.open_timeout ≤ℤ t -ℤ b.opened_at
    → ((allow t b).0 ≡ none)
      × ((allow t b).1.state ≡ half_open)
      × ((allow t b).1.half_open_requests ≡ pos 1)
      × ((allow t b).1.cfg ≡ b.cfg)
unfolding allow inc64
first_probe b t v s h = ground (arith, v.allowance_pos)

-- Once the timeout has passed, an open breaker admits the first of the requests that follow, up to
-- HalfOpenMaxRequests of them, and no more until an outcome is recorded.
pub half_open_allowance :
    (b : Breaker) (t : Time) (ts : List Time) (m : ℕ)
    → IsValid b
    → b.state ≡ open_
    → b.cfg.open_timeout ≤ℤ t -ℤ b.opened_at
    → b.cfg.half_open_max_requests ≡ pos m
    → admitted (t ∷ ts) b ≡ min (suc (length ts)) m
unfolding admitted
half_open_allowance b t ts zero v s h e = absurd (ground (arith, v.allowance_pos))
half_open_allowance b t ts (suc m) v s h e =
    let (free, s', f', c') = first_probe b t v s h in
    let rest = admits_rest ts (allow t b).1 1 m (allow-IsValid t v) s' f' (ground (arith, c')) in
    ground (arith, free, rest)

-- After the timeout one admitted request decides: its success closes the breaker with no failure
-- counted, its failure opens it again from the time of that failure.
pub probe_decides :
    (b : Breaker) (t u : Time)
    → IsValid b
    → b.state ≡ open_
    → b.cfg.open_timeout ≤ℤ t -ℤ b.opened_at
    → ((record_success (allow t b).1).state ≡ closed)
      × ((record_success (allow t b).1).failures ≡ pos 0)
      × ((record_failure u (allow t b).1).state ≡ open_)
      × ((record_failure u (allow t b).1).opened_at ≡ u)
unfolding record_success record_failure
probe_decides b t u v s h = ground (arith, first_probe b t v s h)
