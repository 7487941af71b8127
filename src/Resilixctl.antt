-- ===== src/Resilixctl.antt =====
-- The command line: run of sdk/go/cmd/resilixctl/main.go. Its output is a list of lines, an exit
-- code a number. The parser of flags and the encoder of JSON belong to other packages: the values of
-- the flags are arguments, and so is what Encode returns.
pub mod Exit
mod Tests
use resilix.Prelude.{
  ℕ, String, Bool, not, Option, none, some, List, [], ◌∷◌, ◌++◌, str_eq, if◌then◌else◌,
}
use resilix.Prelude.Int.{Duration}
use resilix.Errors.{Error, Result, ok, err}
use resilix.Breaker.{Breaker}
use resilix.Mock.Stubs.{PoolStats}
use resilix.Options.{Floats, Options, default_options}
use resilix.Config.{load_options}
use resilix.Config.Decoded.{Outside}
use resilix.Retry.{World}
use resilix.Services.{Session}
use resilix.Services.Lifecycle.{Parts, Given, HealthStatus, new_client, health, close}

pub record Flags : Type 0 where
  pub config_path : String
  pub addr : String
  pub show_version : Bool

-- A line of the output: the version and the status on the standard output, the errors beside it.
pub data Line : Type 0 where
  version : Line
  config_error : Error → Line
  client_error : Error → Line
  health_error : Error → Line
  encode_error : Error → Line
  close_error : Error → Line
  encoded : HealthStatus → Line

-- What the process leaves: the exit code, the output, and the state; `none` for a panic.
abbrev pub Exit : Type 0 → Type 0
Exit E = Option (ℕ × List Line) × World E

-- Options with no hooks, no plugins and no backend of their own.
abbrev pub plain : {E P F : Type 0} → Options P F → Given E P F
plain o = record {
  options = o;
  before_execute = [];
  after_execute = [];
  middlewares = [];
  classifier = none;
  rate_limiter = none;
  backend = none;
}

-- The lines that the deferred Close adds.
unfoldable pub closing : Result (Unit {0}) → List Line
closing (ok u) = []
closing (err e) = close_error e ∷ []

-- The end: the status is encoded, whatever the health is.
unfoldable pub ended : Option Error → Option Error → HealthStatus → ℕ × List Line
ended failure none status = elim failure [
  | none ↦ (0, encoded status ∷ [])
  | some e ↦ (1, health_error e ∷ encoded status ∷ [])
]
ended failure (some x) status =
    (1, elim failure [ none ↦ encode_error x ∷ [] | some e ↦ health_error e ∷ encode_error x ∷ [] ])

module _ {E P F : Type 0} (parts : Parts E P F) (fl : Floats F) (logger registry : P)
    (outside : Outside F) (record_pool : PoolStats → World E → World E)
    (encode : HealthStatus → Option Error) where
  -- The options: those of the file, if there is one, or the defaults with the address.
  unfoldable pub chosen : Flags → Result (Options P F)
  unfolding default_options
  chosen flags =
      if not (str_eq flags.config_path "")
      then load_options outside fl logger registry flags.config_path "RESILIX" []
      else ok (record (default_options fl logger registry) { addrs = flags.addr ∷ [] })

  -- Close runs behind everything else.
  unfoldable pub finish : Session E → Option (HealthStatus × Option Error) × World E → Exit E
  unfolding closing ended
  finish c (none, w) = let (r, c', w') = close c w in (none, w')
  finish c (some (status, failure), w) =
      let (r, c', w') = close c w in
      let (code, lines) = ended failure (encode status) status in
      (some (code, lines ++ closing r), w')

  -- `New` has made the breaker, which the state around the client has.
  unfoldable pub checked_health : Result (Session E × Breaker) → E → World E → Exit E
  unfolding finish
  checked_health (err e) env w = (some (1, client_error e ∷ []), w)
  checked_health (ok (c, b)) env w =
      finish c (health c record_pool (record { breaker = some b; env = env }))

  unfoldable pub started : Result (Options P F) → World E → Exit E
  unfolding checked_health
  started (err e) w = (some (1, config_error e ∷ []), w)
  started (ok o) w = checked_health (new_client parts fl logger registry [] (plain o)) w.env w

  unfoldable pub run : Flags → World E → Exit E
  unfolding started chosen
  run flags w = if flags.show_version then (some (0, version ∷ []), w) else started (chosen flags) w
