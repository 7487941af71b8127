-- ===== src/Services/Lists.antt =====
-- The service of lists: listService of sdk/go/services.go.
use resilix.Prelude.{String, List, [], ◌∷◌}
use resilix.Prelude.Int.{ℤ}
use resilix.Mock.{Value}
use resilix.Retry.{World}
use resilix.Validation.{validate_key}
use resilix.Contract.{str, int, strings}
use resilix.Services.{Session, Outcome, send, checked, as_str, as_int, as_strings}

module _ {E : Type 0} (c : Session E) where
  unfoldable pub lpush : String → List Value → World E → Outcome E ℤ
  lpush key vs =
      checked c (validate_key key)
        (send c "LPUSH" "list" (key ∷ []) (λ n. int n) (c.backend.lpush key vs) as_int)

  unfoldable pub rpush : String → List Value → World E → Outcome E ℤ
  rpush key vs =
      checked c (validate_key key)
        (send c "RPUSH" "list" (key ∷ []) (λ n. int n) (c.backend.rpush key vs) as_int)

  unfoldable pub lpop : String → World E → Outcome E String
  lpop key =
      checked c (validate_key key)
        (send c "LPOP" "list" (key ∷ []) (λ s. str s) (c.backend.lpop key) as_str)

  unfoldable pub rpop : String → World E → Outcome E String
  rpop key =
      checked c (validate_key key)
        (send c "RPOP" "list" (key ∷ []) (λ s. str s) (c.backend.rpop key) as_str)

  unfoldable pub range : String → ℤ → ℤ → World E → Outcome E (List String)
  range key start stop = checked c (validate_key key) (
      send c "LRANGE" "list" (key ∷ []) (λ l. strings l) (c.backend.lrange key start stop)
        as_strings)

  unfoldable pub len : String → World E → Outcome E ℤ
  len key =
      checked c (validate_key key)
        (send c "LLEN" "list" (key ∷ []) (λ n. int n) (c.backend.llen key) as_int)
