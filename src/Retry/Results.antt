-- ===== src/Retry/Results.antt =====
-- What is known of the values that `Do` returns.
use resilix.Prelude.{
  ℕ, zero, suc, ◌+◌, ◌==◌, ◌≡◌, not, ◌||◌, Option, none, some, arith, inl, inr, Bool-cases,
  Option-cases,
}
use resilix.Prelude.Int.{pos, pos_part, neg_part}
use resilix.Errors.{Error, Result, ok, err}
use resilix.Retry.{
  Policy, World, Caller, Round, returns, again, round, attempts, go_on, after, pause, resume, ask,
  do_,
}
use resilix.Retry.Outcomes.{do-admitted}

module _ {A : Type 0} (P : A → Type 0) where
  -- A result with a value has one of these.
  abbrev pub Gives : Result (Option A) → Type 0
  Gives (ok none) = ⊥
  Gives (ok (some a)) = P a
  Gives (err e) = Unit {0}

  abbrev pub FnGives : Result A → Type 0
  FnGives (ok a) = P a
  FnGives (err e) = Unit {0}

  abbrev RoundGives : Round A → Type 0
  RoundGives (returns r) = Gives r
  RoundGives (again e) = Unit {0}

module _ {E A : Type 0} (P : A → Type 0) (c : Caller E A)
    (h : (w : World E) → FnGives P (c.fn w).0) where
  resume-Gives : (e : Error) (o : Option Error × World E) → RoundGives P (resume c e o).0
  unfolding resume
  resume-Gives e (none, w) = tt
  resume-Gives e (some x, w) = tt

  after-Gives :
      (p : Policy) (n : ℕ) (r : Result A) (w : World E)
      → FnGives P r
      → RoundGives P (after c p n r w).0
  unfolding after pause
  after-Gives p n (ok a) w g = g
  after-Gives p n (err e) w g =
      elim (Bool-cases
        (not (p.classifier e) || (n + neg_part p.max_attempts == pos_part p.max_attempts))) [
          | inl stop ↦ rw stop tt
          | inr go ↦ rw go (resume-Gives e _)
        ]

  go_on-Gives :
      (next : Error → World E → Result (Option A) × World E) (o : Round A × World E)
      → ((e : Error) (w : World E) → Gives P (next e w).0)
      → RoundGives P o.0
      → Gives P (go_on c next o).0
  unfolding go_on
  go_on-Gives next (returns r, w) k g = g
  go_on-Gives next (again e, w) k g = k e w

  round-Gives : (p : Policy) (n : ℕ) (w : World E) → RoundGives P (round c p n w).0
  unfolding round
  round-Gives p n w = after-Gives p n (c.fn w).0 (c.fn w).1 (h w)

  attempts-Gives :
      (p : Policy) (left n : ℕ) (x : Error) (w : World E)
      → Gives P (attempts c p left n (some x) w).0
  unfolding attempts
  attempts-Gives p zero n x w = tt
  attempts-Gives p (suc left) n x w =
      go_on-Gives (λ e w'. attempts c p left (suc n) (some e) w') (round c p n w)
        (λ e w'. attempts-Gives p left (suc n) e w') (round-Gives p n w)

  do-refused :
      (p : Policy) (w : World E) (e : Error)
      → (ask c w).0 ≡ some e
      → do_ c p w ≡ (err e, (ask c w).1)
  unfolding do_
  do-refused p w e refused = ground (arith, refused)

  -- A value that `Do` returns is one that the command returned, and it returns no nil value
  -- without an error. (MaxAttempts is positive.)
  pub do-Gives :
      (p : Policy) (w : World E) (m : ℕ) → p.max_attempts ≡ pos (suc m) → Gives P (do_ c p w).0
  unfolding attempts
  do-Gives p w m pm = elim (Option-cases (ask c w).0) [
    | inl free ↦ rw (do-admitted c p w m pm free) (
        go_on-Gives (λ e w'. attempts c p m 2 (some e) w') (round c p 1 (ask c w).1)
          (λ e w'. attempts-Gives p m 2 e w') (round-Gives p 1 (ask c w).1))
    | inr (e, refused) ↦ rw (do-refused p w e refused) tt
  ]
