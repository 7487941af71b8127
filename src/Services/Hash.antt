-- ===== src/Services/Hash.antt =====
-- The service of hashes: hashService of sdk/go/services.go.
use resilix.Prelude.{String, Option, List, [], ◌∷◌}
use resilix.Prelude.Int.{ℤ}
use resilix.Dict.{Dict}
use resilix.Mock.{Value}
use resilix.Retry.{World}
use resilix.Validation.{
  first_error, validate_key, validate_key_as, validate_string_slice, validate_map,
}
use resilix.Contract.{str, int, values, fields}
use resilix.Services.{Session, Outcome, send, checked, as_str, as_int, as_values, as_fields}

module _ {E : Type 0} (c : Session E) where
  unfoldable pub set : String → Dict Value → World E → Outcome E ℤ
  set key fields_ =
      checked c (first_error (validate_key key) (validate_map "values" fields_))
        (send c "HSET" "hash" (key ∷ []) (λ n. int n) (c.backend.hset key fields_) as_int)

  unfoldable pub get : String → String → World E → Outcome E String
  get key field =
      checked c (first_error (validate_key key) (validate_key_as "field" field))
        (send c "HGET" "hash" (key ∷ []) (λ s. str s) (c.backend.hget key field) as_str)

  unfoldable pub get_all : String → World E → Outcome E (Dict String)
  get_all key =
      checked c (validate_key key)
        (send c "HGETALL" "hash" (key ∷ []) (λ d. fields d) (c.backend.hget_all key) as_fields)

  unfoldable pub mget : String → List String → World E → Outcome E (List (Option String))
  mget key names =
      checked c (first_error (validate_key key) (validate_string_slice "fields" names))
        (send c "HMGET" "hash" (key ∷ []) (λ l. values l) (c.backend.hmget key names) as_values)

  unfoldable pub del : String → List String → World E → Outcome E ℤ
  del key names =
      checked c (first_error (validate_key key) (validate_string_slice "fields" names))
        (send c "HDEL" "hash" (key ∷ []) (λ n. int n) (c.backend.hdel key names) as_int)
