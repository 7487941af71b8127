-- ===== src/Client.antt =====
-- How the client runs an operation: execute and its helpers of sdk/go/client.go, the chain of
-- sdk/go/middleware.go, and the wiring of New. What hooks, middleware, the admission
-- controller and the recorder do to the rest of the program is an argument; a released slot, a
-- context and a correlation id are part of the state that they change.
pub mod Slots
pub mod Gate
pub mod Failures
pub mod Scanning
mod Tests
use resilix.Prelude.{String, Bool, true, false, Option, none, some, List, [], ◌∷◌, if◌then◌else◌}
use resilix.Errors.{
  Error, Result, ok, err, client_closed, key_not_found, is_key_not_found, wrap_operation_error,
}
use resilix.Breaker
use resilix.Options.{Options}
use resilix.Retry.{Policy, World, Caller, do_}

pub record Operation : Type 0 where
  pub name : String
  pub kind : String
  pub keys : List String

abbrev pub Handler : Type 0 → Type 0 → Type 0
Handler E A = Operation → World E → Result (Option A) × World E

pub record RedisClient (E A : Type 0) : Type 0 where
  pub policy : Policy
  pub before_execute : List (Operation → World E → Option Error × World E)
  pub after_execute : List (Operation → Option Error → World E → World E)
  pub middlewares : List (Handler E A → Handler E A)
  pub acquire : Operation → World E → Option Error × World E
  pub release : World E → World E
  pub begin : Operation → World E → World E
  pub finish : Option Error → World E → World E

-- What New gives the breaker.
unfoldable pub breaker_config : {P F : Type 0} → Options P F → Breaker.Config
breaker_config o = record {
  failure_threshold = o.circuit_breaker.failure_threshold;
  open_timeout = o.circuit_breaker.open_timeout;
  half_open_max_requests = o.circuit_breaker.half_open_max_requests;
  on_state_change = true;
}

-- The middleware that stands first is the outermost.
unfoldable pub chain : {H : Type 0} → List (H → H) → H → H
chain [] terminal = terminal
chain (m ∷ ms) terminal = m (chain ms terminal)

-- `normalizePublicError`, of an error that is not nil.
unfoldable pub normalize_public_error : Operation → Error → Error
normalize_public_error op e =
    if is_key_not_found e then key_not_found else wrap_operation_error op.name op.keys e

unfoldable pub error_of : {A : Type 0} → Result A → Option Error
error_of (ok a) = none
error_of (err e) = some e

unfoldable pub map_error : {A : Type 0} → (Error → Error) → Result A → Result A
map_error f (ok a) = ok a
map_error f (err e) = err (f e)

-- The hooks in order, up to the first error.
unfoldable pub run_before :
    {E : Type 0}
    → List (Operation → World E → Option Error × World E)
    → Operation
    → Option Error × World E
    → Option Error × World E
run_before [] op r = r
run_before (hook ∷ hooks) op (some e, w) = (some e, w)
run_before (hook ∷ hooks) op (none, w) = run_before hooks op (hook op w)

unfoldable pub run_after :
    {E : Type 0}
    → List (Operation → Option Error → World E → World E)
    → Operation
    → Option Error
    → World E
    → World E
run_after [] op e w = w
run_after (hook ∷ hooks) op e w = run_after hooks op e (hook op e w)

-- `k` has the action of the call, and what the executor is given.
module _ {E A : Type 0} (c : RedisClient E A) (k : Caller E A) where
  -- Behind the executor.
  unfoldable pub conclude : Operation → Result (Option A) × World E → Result (Option A) × World E
  unfolding normalize_public_error error_of map_error run_after
  conclude op (r, w) = (
    map_error (λ e. normalize_public_error op e) r,
    c.release (run_after c.after_execute op (error_of r) (c.finish (error_of r) w)),
  )

  unfoldable pub admit : Operation → Option Error × World E → Result (Option A) × World E
  unfolding conclude
  admit op (some e, w) = (err e, w)
  admit op (none, w) = conclude op (do_ k c.policy (c.begin op w))

  unfoldable pub pass : Operation → Option Error × World E → Result (Option A) × World E
  unfolding admit
  pass op (some e, w) = (err e, w)
  pass op (none, w) = admit op (c.acquire op w)

  unfoldable pub terminal : Handler E A
  unfolding run_before pass
  terminal op w = pass op (run_before c.before_execute op (none, w))

  -- `closed` is the client's flag, which the mutex keeps from changing meanwhile.
  unfoldable pub execute : Bool → Operation → World E → Result (Option A) × World E
  unfolding chain terminal map_error
  execute closed op w =
      if closed
      then (err client_closed, w)
      else (let (r, w') = chain c.middlewares terminal op w in
          (map_error (λ e. wrap_operation_error op.name op.keys e) r, w'))
