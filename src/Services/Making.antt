-- ===== src/Services/Making.antt =====
-- What holds of a client that New of sdk/go/client.go returns.
use resilix.Prelude.{ℕ, zero, suc, subst, ◌≡◌, refl, false, Option, none, some, List, arith}
use resilix.Prelude.Int.{ℤ, pos, negsuc, ◌<ℤ◌}
use resilix.Errors.{Error, ok}
use resilix.Breaker
use resilix.Breaker.{Breaker, closed}
use resilix.Options.{Floats, Options, normalize}
use resilix.Options.Normal.{IsFilled, normalize-IsFilled}
use resilix.Retry.{new_policy}
use resilix.Services.{Session}
use resilix.Services.Lifecycle.{
  Parts, Given, apply_plugins, assemble, normalized_client, plugged_client, new_client,
}

-- What the other theorems ask of a client: it is open, its executor makes at least one attempt, and
-- its breaker is closed.
pub record IsReady {E : Type 0} (c : Session E) (b : Breaker) : Type 0 where
  pub is_open : c.closed ≡ false
  pub attempts : ℕ
  pub attempts_pos : c.client.policy.max_attempts ≡ pos (suc attempts)
  pub is_closed : b.state ≡ closed

pos-suc : (x : ℤ) → pos 0 <ℤ x → (n : ℕ) × (x ≡ pos (suc n))
pos-suc (pos (suc n)) h = (n, refl)
pos-suc (pos zero) h = absurd (omega arith)
pos-suc (negsuc n) h = absurd (ground (arith, h))

ok-eq : {A : Type 0} (a b : A) → ok a ≡ ok b → a ≡ b
ok-eq a b h = ground (arith, h)

module _ {E P F : Type 0} (parts : Parts E P F) (fl : Floats F) (logger registry : P)
    (two_big : fl.below_one fl.two ≡ false) (fifth_pos : fl.negative fl.fifth ≡ false) where
  assemble-IsReady :
      (g : Given E P F) (o : Options P F)
      → IsFilled fl o
      → IsReady (assemble parts fl logger registry g o).0 (assemble parts fl logger registry g o).1
  unfolding assemble Breaker.new new_policy
  assemble-IsReady g o filled =
      let (n, attempts) = pos-suc o.retry.max_attempts filled.max_attempts in
      record {
        is_open = refl;
        attempts = n;
        attempts_pos = ground (arith, attempts);
        is_closed = refl;
      }

  normalized-IsReady :
      (g : Given E P F) (r : Option Error × Options P F) (x : Session E × Breaker)
      → (r.0 ≡ none → IsFilled fl r.1)
      → normalized_client parts fl logger registry g r ≡ ok x
      → IsReady x.0 x.1
  unfolding normalized_client
  normalized-IsReady g (some e, o) x filled h = absurd (ground (arith, h))
  normalized-IsReady g (none, o) x filled h =
      subst (λ y. IsReady y.0 y.1) (ok-eq (assemble parts fl logger registry g o) x h)
        (assemble-IsReady g o (filled refl))

  plugged-IsReady :
      (r : Option Error × Given E P F) (x : Session E × Breaker)
      → plugged_client parts fl logger registry r ≡ ok x
      → IsReady x.0 x.1
  unfolding plugged_client
  plugged-IsReady (some e, g) x h = absurd (ground (arith, h))
  plugged-IsReady (none, g) x h =
      normalized-IsReady g (normalize fl logger registry g.options) x
        (λ accepted. (normalize-IsFilled fl logger registry two_big fifth_pos g.options accepted).0)
        h

  -- A client that New returns is open, makes at least one attempt for each operation, and has a
  -- closed breaker, whatever the options are and the plugins do to them.
  pub new_client-IsReady :
      (plugins : List (Given E P F → Option Error × Given E P F)) (g : Given E P F)
      (x : Session E × Breaker)
      → new_client parts fl logger registry plugins g ≡ ok x
      → IsReady x.0 x.1
  unfolding new_client
  new_client-IsReady plugins g x h = plugged-IsReady (apply_plugins plugins g) x h
