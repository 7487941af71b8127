-- ===== src/Retry/Outcomes.antt =====
-- How a call of `Do` ends, and what it tells the breaker.
use resilix.Prelude.{
  ℕ, zero, suc, ◌+◌, ◌≡◌, refl, true, false, Option, none, some, arith, ◌<◌, ◌⊎◌, inl, inr,
  Bool-cases, not, ◌||◌, ◌==◌,
}
use resilix.Prelude.Int.{pos, Duration, pos_part, neg_part}
use resilix.Errors.{Error, Result, ok, err}
use resilix.Breaker.{run}
use resilix.Retry.{
  resume, go_on, after, Policy, World, Caller, Round, returns, again, ask, succeed, fail, pause,
  round, attempts, do_,
}

module _ {E A : Type 0} (c : Caller E A) where
  -- What a returned result says of the state left behind: the breaker has just been told of a
  -- success; or of a failure; or the wait ended by the context's error, and it was told nothing.
  abbrev pub Settled : Result (Option A) → World E → Type 0
  Settled (ok none) w = ⊥
  Settled (ok (some a)) w = (w0 : World E) × (succeed c w0 ≡ w)
  Settled (err e) w =
      ((w0 : World E) × (fail c w0 ≡ w))
      ⊎ ((d : Duration) × (w0 : World E) × (c.wait d w0 ≡ (some e, w)))

  abbrev RoundSettled : Round A → World E → Type 0
  RoundSettled (returns r) w = Settled r w
  RoundSettled (again e) w = Unit {0}

  resume-Settled :
      (e : Error) (d : Duration) (w : World E) (o : Option Error × World E)
      → c.wait d w ≡ o
      → RoundSettled (resume c e o).0 (resume c e o).1
  unfolding resume
  resume-Settled e d w (none, w') h = tt
  resume-Settled e d w (some x, w') h = inr (d, w, h)

  pause-Settled :
      (n : ℕ) (e : Error) (w : World E) → RoundSettled (pause c n e w).0 (pause c n e w).1
  unfolding pause
  pause-Settled n e w = let (d, w') = c.backoff n w in resume-Settled e d w' (c.wait d w') refl

  after-Settled :
      (p : Policy) (n : ℕ) (r : Result A) (w : World E)
      → RoundSettled (after c p n r w).0 (after c p n r w).1
  unfolding after
  after-Settled p n (ok a) w = (w, refl)
  after-Settled p n (err e) w =
      elim (Bool-cases
        (not (p.classifier e) || (n + neg_part p.max_attempts == pos_part p.max_attempts))) [
          | inl stop ↦ rw stop (inl (w, refl))
          | inr go ↦ rw go (pause-Settled n e w)
        ]

  go_on-Settled :
      (next : Error → World E → Result (Option A) × World E) (o : Round A × World E)
      → ((e : Error) (w : World E) → Settled (next e w).0 (next e w).1)
      → RoundSettled o.0 o.1
      → Settled (go_on c next o).0 (go_on c next o).1
  unfolding go_on
  go_on-Settled next (returns r, w) h s = s
  go_on-Settled next (again e, w) h s = h e w

  round-Settled :
      (p : Policy) (n : ℕ) (w : World E) → RoundSettled (round c p n w).0 (round c p n w).1
  unfolding round
  round-Settled p n w = let (r, w') = c.fn w in after-Settled p n r w'

  attempts-Settled :
      (p : Policy) (left n : ℕ) (x : Error) (w : World E)
      → Settled (attempts c p left n (some x) w).0 (attempts c p left n (some x) w).1
  unfolding attempts
  attempts-Settled p zero n x w = inl (w, refl)
  attempts-Settled p (suc left) n x w =
      go_on-Settled (λ e w'. attempts c p left (suc n) (some e) w') (round c p n w)
        (λ e w'. attempts-Settled p left (suc n) e w') (round-Settled p n w)

  pub do-admitted :
      (p : Policy) (w : World E) (m : ℕ)
      → p.max_attempts ≡ pos (suc m)
      → (ask c w).0 ≡ none
      → do_ c p w ≡ attempts c p (suc m) 1 none (ask c w).1
  unfolding do_
  do-admitted p w m pm free = ground (arith, pm, free)

  -- Every call of `Do` that the breaker admits ends in one of three ways: with a value, the breaker
  -- told of a success last; with an error, the breaker told of a failure last; or with the error of
  -- the context, in the wait, the breaker told nothing after it. (MaxAttempts is positive.)
  pub do_settles :
      (p : Policy) (w : World E) (m : ℕ)
      → p.max_attempts ≡ pos (suc m)
      → (ask c w).0 ≡ none
      → Settled (do_ c p w).0 (do_ c p w).1
  unfolding attempts
  do_settles p w m pm free = rw (do-admitted p w m pm free) (
      go_on-Settled (λ e w'. attempts c p m 2 (some e) w') (round c p 1 (ask c w).1)
        (λ e w'. attempts-Settled p m 2 e w') (round-Settled p 1 (ask c w).1))

module _ {E A : Type 0} (c : Caller E A) (p : Policy) (m : ℕ)
    (pm : p.max_attempts ≡ pos (suc m)) where
  -- A command that fails with an error that the classifier refuses is run once: `Do` returns its
  -- error and records one failure, also where the error is a missing key.
  pub do-permanent :
      (w w' : World E) (e : Error)
      → (ask c w).0 ≡ none
      → c.fn (ask c w).1 ≡ (err e, w')
      → p.classifier e ≡ false
      → do_ c p w ≡ (err e, fail c w')
  unfolding attempts go_on round after
  do-permanent w w' e free run refuse =
      rw (do-admitted c p w m pm free) (ground (arith, run, refuse))

  -- A command that succeeds at once is run once, and the success is recorded.
  pub do-success :
      (w w' : World E) (a : A)
      → (ask c w).0 ≡ none
      → c.fn (ask c w).1 ≡ (ok a, w')
      → do_ c p w ≡ (ok (some a), succeed c w')
  unfolding attempts go_on round after
  do-success w w' a free run = rw (do-admitted c p w m pm free) (ground (arith, run))

  -- Where the context ends the wait behind a first failed attempt, `Do` returns the context's error
  -- and leaves the state as the wait left it.
  pub do-canceled :
      (w w1 w2 w3 : World E) (e x : Error) (d : Duration)
      → 0 < m
      → (ask c w).0 ≡ none
      → c.fn (ask c w).1 ≡ (err e, w1)
      → p.classifier e ≡ true
      → c.backoff 1 w1 ≡ (d, w2)
      → c.wait d w2 ≡ (some x, w3)
      → do_ c p w ≡ (err x, w3)
  unfolding attempts go_on round after pause resume
  do-canceled w w1 w2 w3 e x d more free run retry back stop =
      rw (do-admitted c p w m pm free) (ground (arith, run, retry, back, stop))
