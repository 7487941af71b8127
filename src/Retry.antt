-- ===== src/Retry.antt =====
-- The retry executor: sdk/go/internal/retry/executor.go. The breaker is shared: what `fn` and the
-- wait do may change it, since other goroutines run meanwhile.
pub mod Outcomes
pub mod Attempts
pub mod Shared
pub mod Results
mod Tests
use resilix.Prelude.{
  ℕ, zero, suc, ◌≡◌, Bool, true, false, not, ◌&&◌, ◌||◌, ◌==◌, ◌+◌, Option, none, some, map,
  if◌then◌else◌, ◌⊎◌, inl, inr, refl,
}
use resilix.Prelude.Int.{ℤ, pos, Time, Duration, pos_part, neg_part, leb_ℤ}
use resilix.Errors.{
  Error, Result, ok, err, is_canceled, is_key_not_found, is_deadline_exceeded, is_eof, as_net_error,
  message, to_lower, contains, codes,
}
use resilix.Breaker.{Breaker, allow, record_success, record_failure}

-- `DefaultClassifier`, of an error that is not nil.
unfoldable pub default_classifier : Error → Bool
unfolding is_canceled is_key_not_found is_deadline_exceeded is_eof as_net_error message to_lower
    contains
default_classifier e =
    if is_canceled e || is_key_not_found e
    then false
    else if is_deadline_exceeded e || is_eof e
    then true
    else if as_net_error e
    then true
    else (let lower = map to_lower (message e) in
        contains (codes "connection") lower
        || contains (codes "timeout") lower
        || contains (codes "broken pipe") lower
        || contains (codes "reset by peer") lower)

pub record Policy : Type 0 where
  pub max_attempts : ℤ
  pub classifier : Error → Bool

-- `New`: the policy that the executor keeps. `none` is a nil classifier.
unfoldable pub new_policy : ℤ → Option (Error → Bool) → Policy
new_policy attempts classifier = record {
  max_attempts = if leb_ℤ attempts (pos 0) then pos 3 else attempts;
  classifier = elim classifier [ none ↦ default_classifier | some c ↦ c ];
}

-- What a call of `Do` can reach: the breaker, if there is one, and the rest of the program.
pub record World (E : Type 0) : Type 0 where
  pub breaker : Option Breaker
  pub env : E

-- The code that `Do` calls and does not contain: the clock, the command, the backoff strategy, and
-- the wait for a timer or for the context, which returns the context's error if it is done first.
pub record Caller (E A : Type 0) : Type 0 where
  pub now : E → Time
  pub fn : World E → Result A × World E
  pub backoff : ℕ → World E → Duration × World E
  pub wait : Duration → World E → Option Error × World E

-- What one round of the loop comes to.
pub data Round (A : Type 0) : Type 0 where
  returns : Result (Option A) → Round A
  again : Error → Round A

module _ {E A : Type 0} (c : Caller E A) where
  unfoldable pub ask : World E → Option Error × World E
  ask w = elim w.breaker [
    | none ↦ (none, w)
    | some b ↦ (let (e, b') = allow (c.now w.env) b in (e, record w { breaker = some b' }))
  ]

  unfoldable pub succeed : World E → World E
  succeed w = record w {
    breaker = elim w.breaker [ none ↦ none | some b ↦ some (record_success b) ];
  }

  unfoldable pub fail : World E → World E
  fail w = record w {
    breaker = elim w.breaker [ none ↦ none | some b ↦ some (record_failure (c.now w.env) b) ];
  }

  -- The two cases of the select behind a failed attempt.
  unfoldable pub resume : Error → Option Error × World E → Round A × World E
  resume e (none, w) = (again e, w)
  resume e (some x, w) = (returns (err x), w)

  unfoldable pub pause : ℕ → Error → World E → Round A × World E
  unfolding resume
  pause attempt e w = let (d, w') = c.backoff attempt w in resume e (c.wait d w')

  unfoldable pub after : Policy → ℕ → Result A → World E → Round A × World E
  unfolding succeed fail pause
  after p attempt (ok a) w = (returns (ok (some a)), succeed w)
  after p attempt (err e) w =
      if not (p.classifier e) || (attempt + neg_part p.max_attempts == pos_part p.max_attempts)
      then (returns (err e), fail w)
      else pause attempt e w

  unfoldable pub round : Policy → ℕ → World E → Round A × World E
  unfolding after
  round p attempt w = let (r, w') = c.fn w in after p attempt r w'

  -- To the next round, or out of the loop.
  unfoldable pub go_on :
      (Error → World E → Result (Option A) × World E)
      → Round A × World E
      → Result (Option A) × World E
  go_on next (returns r, w) = (r, w)
  go_on next (again e, w) = next e w

  -- The loop, with the rounds that are left; behind it `lastErr` is returned, or two nils.
  unfoldable pub attempts : Policy → ℕ → ℕ → Option Error → World E → Result (Option A) × World E
  unfolding go_on
  attempts p zero attempt last_err w = (elim last_err [ none ↦ ok none | some e ↦ err e ], fail w)
  attempts p (suc left) attempt last_err w =
      go_on (λ e w'. attempts p left (suc attempt) (some e) w') (round p attempt w)

  unfoldable pub do_ : Policy → World E → Result (Option A) × World E
  unfolding ask attempts round
  do_ p w =
      let (refused, w') = ask w in
      elim refused [ some e ↦ (err e, w') | none ↦ attempts p (pos_part p.max_attempts) 1 none w' ]

pub Round-cases :
    {A : Type 0} (o : Round A)
    → ((r : Result (Option A)) × (o ≡ returns r)) ⊎ ((e : Error) × (o ≡ again e))
Round-cases (returns r) = inl (r, refl)
Round-cases (again e) = inr (e, refl)
