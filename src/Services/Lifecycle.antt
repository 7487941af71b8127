-- ===== src/Services/Lifecycle.antt =====
-- A client from its making to its end: New, Ping, Health and Close of sdk/go/client.go.
use resilix.Prelude.{ℕ, String, Bool, true, false, Option, none, some, List, [], ◌∷◌}
use resilix.Prelude.Int.{ℤ, Time, Duration}
use resilix.Errors.{Error, Result, ok, err}
use resilix.Breaker
use resilix.Breaker.{Breaker, closed}
use resilix.Mock.Stubs.{PoolStats}
use resilix.Options.{Floats, Options, normalize}
use resilix.Retry.{World, new_policy}
use resilix.Client.{Operation, Handler, breaker_config}
use resilix.Contract.{Any, nil, Backend}
use resilix.Services.{Session, Outcome, send, ignored}

-- An admission controller: Acquire, and the function that it returns.
pub record Admission (E : Type 0) : Type 0 where
  pub acquire : Operation → World E → Option Error × World E
  pub release : World E → World E

-- The options with those that Normalize does not read. Of the backend the options themselves say only
-- whether there is one.
pub record Given (E P F : Type 0) : Type 0 where
  pub options : Options P F
  pub before_execute : List (Operation → World E → Option Error × World E)
  pub after_execute : List (Operation → Option Error → World E → World E)
  pub middlewares : List (Handler E Any → Handler E Any)
  pub classifier : Option (Error → Bool)
  pub rate_limiter : Option (Admission E)
  pub backend : Option (Backend (World E))

-- What New takes from other packages, and from the parts that are modelled elsewhere: the recorder,
-- the in-flight gate, the backoff of a retry policy, the driver of go-redis, the clock, the wait.
pub record Parts (E P F : Type 0) : Type 0 where
  pub begin : Options P F → Operation → World E → World E
  pub finish : Options P F → Option Error → World E → World E
  pub gate : ℤ → Admission E
  pub backoff : Duration → Duration → F → F → ℕ → World E → Duration × World E
  pub driver : Options P F → Backend (World E)
  pub now : E → Time
  pub wait : Duration → World E → Option Error × World E

pub record HealthStatus : Type 0 where
  pub status : String
  pub timestamp : Time
  pub pool : PoolStats
  pub breaker_state : Breaker.State

unfoldable pub apply_plugins : {G : Type 0} → List (G → Option Error × G) → G → Option Error × G
apply_plugins [] g = (none, g)
apply_plugins (plugin ∷ plugins) g =
    let (e, g') = plugin g in elim e [ some x ↦ (some x, g') | none ↦ apply_plugins plugins g' ]

module _ {E P F : Type 0} (parts : Parts E P F) (fl : Floats F) (logger registry : P) where
  -- The client with its breaker, of options that are filled in.
  unfoldable pub assemble : Given E P F → Options P F → Session E × Breaker
  unfolding new_policy breaker_config
  assemble g o =
      let limiter : Admission E = elim g.rate_limiter [
        | none ↦ parts.gate o.max_inflight
        | some l ↦ l
      ] in
      (
        record {
          client = record {
            policy = new_policy o.retry.max_attempts g.classifier;
            before_execute = g.before_execute;
            after_execute = g.after_execute;
            middlewares = g.middlewares;
            acquire = limiter.acquire;
            release = limiter.release;
            begin = parts.begin o;
            finish = parts.finish o;
          };
          closed = false;
          backend = elim g.backend [ none ↦ parts.driver o | some b ↦ b ];
          now = parts.now;
          backoff =
              parts.backoff o.retry.base_delay o.retry.max_delay o.retry.multiplier o.retry.jitter;
          wait = parts.wait;
        },
        Breaker.new (breaker_config o),
      )

  unfoldable pub normalized_client :
      Given E P F → Option Error × Options P F → Result (Session E × Breaker)
  unfolding assemble
  normalized_client g (some e, o) = err e
  normalized_client g (none, o) = ok (assemble g o)

  unfoldable pub plugged_client : Option Error × Given E P F → Result (Session E × Breaker)
  unfolding normalized_client
  plugged_client (some e, g) = err e
  plugged_client (none, g) = normalized_client g (normalize fl logger registry g.options)

  unfoldable pub new_client :
      List (Given E P F → Option Error × Given E P F) → Given E P F → Result (Session E × Breaker)
  unfolding apply_plugins plugged_client
  new_client plugins g = plugged_client (apply_plugins plugins g)

-- `State` of the breaker, which a client always has.
unfoldable pub state_of : Option Breaker → Breaker.State
state_of none = closed
state_of (some b) = b.state

module _ {E : Type 0} (c : Session E) where
  unfoldable pub ping : World E → Outcome E (Unit {0})
  ping = send c "PING" "control" [] (λ u. nil) c.backend.ping ignored

  -- The flag is set before the backend is closed.
  unfoldable pub close : World E → Result (Unit {0}) × Session E × World E
  close w = let (r, w') = c.backend.close w in (r, record c { closed = true }, w')

  -- The status goes with the error of the ping, if there is one. The clock and the state of the
  -- breaker are read behind it.
  unfoldable pub health_of :
      PoolStats → Outcome E (Unit {0}) → Option (HealthStatus × Option Error) × World E
  unfolding state_of
  health_of pool (none, w) = (none, w)
  health_of pool (some (err e), w) = (
    some (
      record {
        status = "degraded";
        timestamp = c.now w.env;
        pool = pool;
        breaker_state = state_of w.breaker;
      },
      some e,
    ),
    w,
  )
  health_of pool (some (ok u), w) = (
    some (
      record {
        status = "ok";
        timestamp = c.now w.env;
        pool = pool;
        breaker_state = state_of w.breaker;
      },
      none,
    ),
    w,
  )

  unfoldable pub health :
      (PoolStats → World E → World E) → World E → Option (HealthStatus × Option Error) × World E
  unfolding ping health_of
  health record_pool w =
      let pool = c.backend.pool_stats w in health_of pool (ping (record_pool pool w))
