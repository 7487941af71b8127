-- ===== src/Services/Types.antt =====
-- That the results of the services have the types that are asserted.
pub mod Data
pub mod More
pub mod Total
use resilix.Prelude.{◌≡◌, refl, ℕ, suc, Bool, true, false, Option, none, some, List, [], String}
use resilix.Prelude.Int.{pos}
use resilix.Errors.{Error, Result, ok, err}
use resilix.Retry.{World, do_}
use resilix.Retry.Results.{Gives, FnGives, do-Gives}
use resilix.Client.{
  Operation, chain, run_before, pass, admit, conclude, map_error, terminal, execute,
}
use resilix.Contract.{Any, Command}
use resilix.Services.{Session, Outcome, boxed, caller, unbox, send, checked}

-- A client with no middleware, whose executor makes at least one attempt (as `New` sees to).
pub record IsPlain {E : Type 0} (c : Session E) : Type 0 where
  pub no_middleware : c.client.middlewares ≡ []
  pub attempts : ℕ
  pub attempts_pos : c.client.policy.max_attempts ≡ pos (suc attempts)

-- A method that returns, in every state.
abbrev pub Returns : {E T : Type 0} → (World E → Outcome E T) → Type 0
Returns {E} {T} f = (w : World E) → (r : Result T) × ((f w).0 ≡ some r)

-- What the executor gives the client keeps its type up to the caller.
module _ {E A U : Type 0} (c : Session E) (plain : IsPlain c) (box : A → Any)
    (command : Command (World E) A) (assert : Option Any → Option U) where
  -- The value has the type that is asserted.
  abbrev Fits : Any → Type 0
  Fits x = (u : U) × (assert (some x) ≡ some u)

  module _ (fits : (a : A) → Fits (box a)) where
    boxed-FnGives : (r : Result A × World E) → FnGives Fits (boxed box r).0
    unfolding boxed
    boxed-FnGives (ok a, w) = fits a
    boxed-FnGives (err e, w) = tt

    map_error-Gives :
        (f : Error → Error) (r : Result (Option Any)) → Gives Fits r → Gives Fits (map_error f r)
    unfolding map_error
    map_error-Gives f (ok none) g = g
    map_error-Gives f (ok (some a)) g = g
    map_error-Gives f (err e) g = tt

    conclude-Gives :
        (op : Operation) (r : Result (Option Any) × World E)
        → Gives Fits r.0
        → Gives Fits (conclude c.client (caller c box command) op r).0
    unfolding conclude
    conclude-Gives op (r, w) g = map_error-Gives _ r g

    admit-Gives :
        (op : Operation) (r : Option Error × World E)
        → Gives Fits (admit c.client (caller c box command) op r).0
    unfolding admit caller
    admit-Gives op (some e, w) = tt
    admit-Gives op (none, w) =
        conclude-Gives op (do_ (caller c box command) c.client.policy (c.client.begin op w)) (
          do-Gives Fits (caller c box command) (λ w'. boxed-FnGives (command w')) c.client.policy
            (c.client.begin op w) plain.attempts plain.attempts_pos)

    pass-Gives :
        (op : Operation) (r : Option Error × World E)
        → Gives Fits (pass c.client (caller c box command) op r).0
    unfolding pass
    pass-Gives op (some e, w) = tt
    pass-Gives op (none, w) = admit-Gives op (c.client.acquire op w)

    execute-Gives :
        (closed : Bool) (op : Operation) (w : World E)
        → Gives Fits (execute c.client (caller c box command) closed op w).0
    unfolding execute chain terminal caller
    execute-Gives true op w = tt
    execute-Gives false op w =
        rw plain.no_middleware
          (map_error-Gives _ _ (pass-Gives op (run_before c.client.before_execute op (none, w))))

    unbox-returns :
        (r : Result (Option Any) × World E)
        → Gives Fits r.0
        → (x : Result U) × ((unbox c assert r).0 ≡ some x)
    unfolding unbox
    unbox-returns (ok none, w) g = absurd g
    unbox-returns (ok (some a), w) (u, e) = (ok u, rw e refl)
    unbox-returns (err e, w) g = (err e, refl)

    pub send-returns :
        (name kind : String) (keys : List String)
        → Returns (send c name kind keys box command assert)
    unfolding send
    send-returns name kind keys w =
        unbox-returns _
          (execute-Gives c.closed (record { name = name; kind = kind; keys = keys }) w)

    pub checked-returns :
        (check : Option Error) (name kind : String) (keys : List String)
        → Returns (checked c check (send c name kind keys box command assert))
    unfolding checked
    checked-returns (some e) name kind keys w = (err e, refl)
    checked-returns none name kind keys w = send-returns name kind keys w
