-- ===== src/Services/Script.antt =====
-- The service of scripts: scriptService of sdk/go/services.go, which checks nothing.
use resilix.Prelude.{String, Option, List, []}
use resilix.Mock.{Value}
use resilix.Retry.{World}
use resilix.Contract.{Any, str}
use resilix.Services.{Session, Outcome, send, as_str, as_any}

module _ {E : Type 0} (c : Session E) where
  unfoldable pub eval : String → List String → List Value → World E → Outcome E (Option Any)
  eval script keys args =
      send c "EVAL" "script" keys (λ a. a) (c.backend.eval script keys args) as_any

  unfoldable pub eval_sha : String → List String → List Value → World E → Outcome E (Option Any)
  eval_sha sha keys args =
      send c "EVALSHA" "script" keys (λ a. a) (c.backend.eval_sha sha keys args) as_any

  unfoldable pub load : String → World E → Outcome E String
  load script = send c "SCRIPTLOAD" "script" [] (λ s. str s) (c.backend.script_load script) as_str
