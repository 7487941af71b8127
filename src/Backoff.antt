-- ===== src/Backoff.antt =====
-- The delays between attempts: sdk/go/internal/backoff/backoff.go. A float64 is of a type that is an
-- argument, with the operations that the code uses; the random source is a state.
pub mod Bounds
mod Tests
use resilix.Prelude.{ℕ, Bool, leb, ◌-◌, if◌then◌else◌}
use resilix.Prelude.Int.{ℤ, pos, Duration, leb_ℤ}

-- The float64 operations of the file: `math.Pow` of a natural exponent, the conversions from and to
-- a duration, and the comparisons.
pub record FloatOps (F : Type 0) : Type 0 where
  pub zero : F
  pub one : F
  pub two : F
  pub of_duration : Duration → F
  pub to_duration : F → Duration
  pub add : F → F → F
  pub sub : F → F → F
  pub mul : F → F → F
  pub pow : F → ℕ → F
  pub less : F → F → Bool
  pub equal : F → F → Bool

pub record Strategy (F : Type 0) : Type 0 where
  pub base : Duration
  pub max : Duration
  pub multiplier : F
  pub jitter : F

module _ {F R : Type 0} (ops : FloatOps F) (random : R → F × R) where
  unfoldable pub new : Duration → Duration → F → F → Strategy F
  new base max multiplier jitter = record {
    base = if leb_ℤ base (pos 0) then pos 25000000 else base;
    max = if leb_ℤ max (pos 0) then pos 1000000000 else max;
    multiplier = if ops.less multiplier ops.one then ops.two else multiplier;
    jitter = if ops.less jitter ops.zero then ops.zero else jitter;
  }

  -- A delay with the spread that a random number gives.
  unfoldable pub adjust : Strategy F → Duration → F → Duration
  adjust s delay r =
      let spread = ops.mul (ops.sub (ops.mul r ops.two) ops.one) s.jitter in
      let adjusted = ops.mul (ops.of_duration delay) (ops.add ops.one spread) in
      if ops.less adjusted ops.zero then pos 0 else ops.to_duration adjusted

  unfoldable pub apply_jitter : Strategy F → Duration → R → Duration × R
  unfolding adjust
  apply_jitter s delay source =
      let (r, source') = random source in
      if ops.equal s.jitter ops.zero then (delay, source) else (adjust s delay r, source')

  unfoldable pub next_delay : Strategy F → ℕ → F
  next_delay s attempt =
      let next = ops.mul (ops.of_duration s.base) (ops.pow s.multiplier (attempt - 1)) in
      if ops.less (ops.of_duration s.max) next then ops.of_duration s.max else next

  unfoldable pub duration : Strategy F → ℕ → R → Duration × R
  unfolding apply_jitter next_delay
  duration s attempt source =
      if leb attempt 1
      then apply_jitter s s.base source
      else apply_jitter s (ops.to_duration (next_delay s attempt)) source
