-- ===== src/Retry/Attempts.antt =====
-- How often `Do` calls the command.
use resilix.Prelude.{ℕ, min, zero, suc, ◌+◌, ◌≡◌, Option, none, some, arith, ◌<◌, ◌≤◌, inl, inr}
use resilix.Prelude.Int.{pos, Duration}
use resilix.Errors.{Error}
use resilix.Retry.{
  go_on, Round-cases, Policy, World, Caller, ask, succeed, fail, pause, round, attempts, do_,
}

-- `calls` counts the command's calls: one more in each, and none in the backoff or the wait.
pub record Counts {E A : Type 0} (c : Caller E A) (calls : E → ℕ) : Type 0 where
  pub by_fn : (w : World E) → calls (c.fn w).1.env ≡ suc (calls w.env)
  pub by_backoff : (n : ℕ) (w : World E) → calls (c.backoff n w).1.env ≡ calls w.env
  pub by_wait : (d : Duration) (w : World E) → calls (c.wait d w).1.env ≡ calls w.env

module _ {E A : Type 0} (c : Caller E A) (calls : E → ℕ) (h : Counts c calls) where
  pub round_calls :
      (p : Policy) (n : ℕ) (w : World E) → calls (round c p n w).1.env ≡ suc (calls w.env)
  unfolding round succeed fail pause
  round_calls p n w =
      let w1 = (c.fn w).1 in
      let (d, w2) = c.backoff n w1 in ground (arith, h.by_fn w, h.by_backoff n w1, h.by_wait d w2)

  attempts_calls :
      (p : Policy) (left n : ℕ) (last : Option Error) (w : World E)
      → (calls (attempts c p left n last w).1.env ≤ calls w.env + left)
        × (calls w.env + min left 1 ≤ calls (attempts c p left n last w).1.env)
  unfolding attempts go_on fail
  attempts_calls p zero n last w = (omega arith, omega arith)
  attempts_calls p (suc left) n last w = elim (Round-cases (round c p n w).0) [
    | inl (r, e) ↦ ground (arith, round_calls p n w, e)
    | inr (x, e) ↦
        ground
          (arith, round_calls p n w, e, attempts_calls p left (suc n) (some x) (round c p n w).1)
  ]

  ask_calls : (w : World E) → (ask c w).1.env ≡ w.env
  unfolding ask
  ask_calls w = ground arith

  -- A call of `Do` that the breaker admits runs the command at least once and at most MaxAttempts
  -- times. (`calls` counts the command's calls; MaxAttempts is positive, as `New` makes it.)
  pub do_calls :
      (p : Policy) (w : World E) (m : ℕ)
      → p.max_attempts ≡ pos (suc m)
      → (ask c w).0 ≡ none
      → (calls w.env < calls (do_ c p w).1.env) × (calls (do_ c p w).1.env ≤ calls w.env + suc m)
  unfolding do_
  do_calls p w m pm free =
      ground (arith, ask_calls w, free, attempts_calls p (suc m) 1 none (ask c w).1)
