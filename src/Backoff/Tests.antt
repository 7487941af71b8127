-- ===== src/Backoff/Tests.antt =====
-- Delays that double, in whole numbers in place of float64.
use resilix.Prelude.{ℕ, ◌≡◌, refl, ◌*◌, ◌^◌, ltb, ◌==◌, arith}
use resilix.Prelude.Int.{pos, ◌≤ℤ◌, pos_part}
use resilix.Backoff.{FloatOps, Strategy, new, duration}
use resilix.Backoff.Bounds.{Converts, duration-bounded}

abbrev ops : FloatOps ℕ
ops = record {
  zero = 0;
  one = 1;
  two = 2;
  of_duration = pos_part;
  to_duration = λ n. pos n;
  add = λ m n. m;
  sub = λ m n. m;
  mul = λ m n. m * n;
  pow = λ m n. m ^ n;
  less = λ m n. ltb m n;
  equal = λ m n. m == n;
}

ops-Converts : Converts ops
ops-Converts = record { back = λ d h. ground (arith, h); below = λ x d h e. ground (arith, h, e) }

-- 10 ms, doubled to 40 ms at most.
abbrev strategy : Strategy ℕ
strategy = new {R = ℕ} ops (λ r. (0, r)) (pos 10000000) (pos 40000000) 2 0

duration-bounded_example :
    ((duration {R = ℕ} ops (λ r. (0, r)) strategy 5 7).0
      ≡ (duration {R = ℕ} ops (λ r. (0, r)) strategy 5 7).0)
    × ((duration {R = ℕ} ops (λ r. (0, r)) strategy 5 7).0 ≤ℤ pos 40000000)
    × ((duration {R = ℕ} ops (λ r. (0, r)) strategy 5 7).1 ≡ 7)
unfolding new
duration-bounded_example =
    duration-bounded {R = ℕ} ops (λ r. (0, r)) ops-Converts (pos 10000000) (pos 40000000) 2 0 5 7
      (omega arith) refl
