-- ===== src/Services/Sets.antt =====
-- The service of sets: setService of sdk/go/services.go.
use resilix.Prelude.{String, Bool, List, [], ◌∷◌}
use resilix.Prelude.Int.{ℤ}
use resilix.Retry.{World}
use resilix.Validation.{first_error, validate_key, validate_key_as, validate_string_slice}
use resilix.Contract.{int, bool, strings}
use resilix.Services.{Session, Outcome, send, checked, as_int, as_bool, as_strings}

module _ {E : Type 0} (c : Session E) where
  unfoldable pub add : String → List String → World E → Outcome E ℤ
  add key members =
      checked c (first_error (validate_key key) (validate_string_slice "members" members))
        (send c "SADD" "set" (key ∷ []) (λ n. int n) (c.backend.sadd key members) as_int)

  unfoldable pub remove : String → List String → World E → Outcome E ℤ
  remove key members =
      checked c (first_error (validate_key key) (validate_string_slice "members" members))
        (send c "SREM" "set" (key ∷ []) (λ n. int n) (c.backend.srem key members) as_int)

  unfoldable pub members_of : String → World E → Outcome E (List String)
  members_of key =
      checked c (validate_key key)
        (send c "SMEMBERS" "set" (key ∷ []) (λ l. strings l) (c.backend.smembers key) as_strings)

  unfoldable pub is_member : String → String → World E → Outcome E Bool
  is_member key member =
      checked c (first_error (validate_key key) (validate_key_as "member" member))
        (send c "SISMEMBER" "set" (key ∷ []) (λ b. bool b) (c.backend.sismember key member) as_bool)

  unfoldable pub card : String → World E → Outcome E ℤ
  card key =
      checked c (validate_key key)
        (send c "SCARD" "set" (key ∷ []) (λ n. int n) (c.backend.scard key) as_int)
