-- ===== src/Mock/Script.antt =====
-- Scripts: Eval to ScriptLoad of sdk/go/resilixtest/mock.go. The hex digest of crypto/sha1 is an
-- argument.
use resilix.Prelude.{String, none, some}
use resilix.Errors.{Result, ok, err, no_script, wrapped}
use resilix.Dict
use resilix.Mock.{Mock, guarded}

unfoldable pub eval : String → Mock → Result String × Mock
eval script = guarded "Eval" λ m. (ok script, m)

unfoldable pub eval_sha : String → Mock → Result String × Mock
eval_sha sha =
    guarded "EvalSHA"
      λ m. (elim (Dict.get m.scripts sha) [ none ↦ err (wrapped no_script sha) | some s ↦ ok s ], m)

module _ (sha1_hex : String → String) where
  unfoldable pub script_load : String → Mock → Result String × Mock
  script_load script = guarded "ScriptLoad" λ m.
      let sha = sha1_hex script in (ok sha, record m { scripts = Dict.put m.scripts sha script })
