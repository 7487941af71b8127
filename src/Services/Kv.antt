-- ===== src/Services/Kv.antt =====
-- The service of keys with text values: kvService of sdk/go/services.go. MSet, which may take a
-- pipeline, stands with the pipelines. The seconds that toSeconds makes of a time to live are a
-- duration here.
use resilix.Prelude.{String, Bool, Option, List, [], ◌∷◌}
use resilix.Prelude.Int.{ℤ, Duration}
use resilix.Mock.{Value}
use resilix.Retry.{World}
use resilix.Validation.{validate_key, validate_keys}
use resilix.Contract.{nil, str, int, float, bool, values}
use resilix.Services.{
  Session, Outcome, send, checked, as_str, as_int, as_float, as_bool, as_values, ignored,
}

module _ {E : Type 0} (c : Session E) where
  unfoldable pub get : String → World E → Outcome E String
  get key =
      checked c (validate_key key)
        (send c "GET" "kv" (key ∷ []) (λ s. str s) (c.backend.get key) as_str)

  unfoldable pub set : String → Value → Duration → World E → Outcome E (Unit {0})
  set key value ttl =
      checked c (validate_key key)
        (send c "SET" "kv" (key ∷ []) (λ u. nil) (c.backend.set key value ttl) ignored)

  unfoldable pub mget : List String → World E → Outcome E (List (Option String))
  mget keys =
      checked c (validate_keys keys)
        (send c "MGET" "kv" keys (λ l. values l) (c.backend.mget keys) as_values)

  unfoldable pub del : List String → World E → Outcome E ℤ
  del keys =
      checked c (validate_keys keys)
        (send c "DEL" "kv" keys (λ n. int n) (c.backend.del keys) as_int)

  unfoldable pub exists : List String → World E → Outcome E ℤ
  exists keys =
      checked c (validate_keys keys)
        (send c "EXISTS" "kv" keys (λ n. int n) (c.backend.exists keys) as_int)

  unfoldable pub expire : String → Duration → World E → Outcome E Bool
  expire key ttl =
      checked c (validate_key key)
        (send c "EXPIRE" "kv" (key ∷ []) (λ b. bool b) (c.backend.expire key ttl) as_bool)

  unfoldable pub ttl : String → World E → Outcome E ℤ
  ttl key =
      checked c (validate_key key)
        (send c "TTL" "kv" (key ∷ []) (λ x. float x) (c.backend.ttl key) as_float)

  unfoldable pub incr : String → World E → Outcome E ℤ
  incr key =
      checked c (validate_key key)
        (send c "INCR" "kv" (key ∷ []) (λ n. int n) (c.backend.incr key) as_int)

  unfoldable pub decr : String → World E → Outcome E ℤ
  decr key =
      checked c (validate_key key)
        (send c "DECR" "kv" (key ∷ []) (λ n. int n) (c.backend.decr key) as_int)
