-- ===== src/Backoff/Bounds.antt =====
-- How long a delay of sdk/go/internal/backoff/backoff.go is.
use resilix.Prelude.{
  ℕ, ◌≡◌, refl, true, false, arith, leb, ◌-◌, Bool-cases, inl, inr, if◌then◌else◌,
}
use resilix.Prelude.Int.{pos, Duration, ◌≤ℤ◌}
use resilix.Backoff.{FloatOps, Strategy, new, apply_jitter, next_delay, duration}

-- A duration that a float64 holds exactly, that is at most 2 ^ 53 nanoseconds.
abbrev pub IsExact : Duration → Type 0
IsExact d = (pos 0 ≤ℤ d) × (d ≤ℤ pos 9007199254740992)

-- What the code relies on of float64: such a duration comes back from its conversion, and a number
-- that is not above it converts to a duration that is not.
pub record Converts {F : Type 0} (ops : FloatOps F) : Type 0 where
  pub back : (d : Duration) → IsExact d → ops.to_duration (ops.of_duration d) ≡ d
  pub below :
      (x : F) (d : Duration)
      → IsExact d
      → ops.less (ops.of_duration d) x ≡ false
      → ops.to_duration x ≤ℤ d

module _ {F R : Type 0} (ops : FloatOps F) (random : R → F × R) (converts : Converts ops) where
  next_delay-below :
      (s : Strategy F) (attempt : ℕ)
      → IsExact s.max
      → ops.to_duration (next_delay ops random s attempt) ≤ℤ s.max
  unfolding next_delay
  next_delay-below s attempt h =
      let next = ops.mul (ops.of_duration s.base) (ops.pow s.multiplier (attempt - 1)) in
      elim (Bool-cases (ops.less (ops.of_duration s.max) next)) [
        | inl e ↦ rw e (rw (converts.back s.max h) (omega arith))
        | inr e ↦ rw e (converts.below next s.max h e)
      ]

  new-IsExact :
      (base max : Duration) (multiplier jitter : F)
      → max ≤ℤ pos 9007199254740992
      → IsExact (new ops random base max multiplier jitter).max
  unfolding new
  new-IsExact base max multiplier jitter h = ground (arith, h)

  apply_jitter-none :
      (s : Strategy F) (d : Duration) (source : R)
      → ops.equal s.jitter ops.zero ≡ true
      → apply_jitter ops random s d source ≡ (d, source)
  unfolding apply_jitter
  apply_jitter-none s d source h = rw h refl

  -- Without jitter the delay of a first attempt is the base delay, and each later one is at most the
  -- longest delay, however large the power of the multiplier is; no random number is drawn. (The
  -- longest delay is at most 2 ^ 53 nanoseconds; one that is not positive stands for a second.)
  pub duration-bounded :
      (base max : Duration) (multiplier jitter : F) (attempt : ℕ) (source : R)
      → max ≤ℤ pos 9007199254740992
      → ops.equal (new ops random base max multiplier jitter).jitter ops.zero ≡ true
      → let s = new ops random base max multiplier jitter in
        let d = duration ops random s attempt source in
        ((if leb attempt 1 then s.base else d.0) ≡ d.0)
        × ((if leb attempt 1 then s.max else d.0) ≤ℤ s.max)
        × (d.1 ≡ source)
  unfolding duration
  duration-bounded base max multiplier jitter attempt source small calm =
      let s = new ops random base max multiplier jitter in
      let first = apply_jitter-none s s.base source calm in
      let later =
        apply_jitter-none s (ops.to_duration (next_delay ops random s attempt)) source calm in
      let below = next_delay-below s attempt (new-IsExact base max multiplier jitter small) in
      elim (Bool-cases (leb attempt 1)) [
        | inl e ↦ rw (e, first) (refl, omega arith, refl)
        | inr e ↦ rw (e, later) (refl, below, refl)
      ]
