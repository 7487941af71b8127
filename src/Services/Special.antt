-- ===== src/Services/Special.antt =====
-- The services of positions, of HyperLogLogs and of bits: sdk/go/geo.go, hll.go and bit.go.
use resilix.Prelude.{String, Bool, Option, List, [], ◌∷◌}
use resilix.Prelude.Int.{ℤ}
use resilix.Mock.{Value}
use resilix.Retry.{World}
use resilix.Validation.{validate_key, validate_keys}
use resilix.Contract.{
  nil, int, float, bool, positions, found, GeoMember, GeoPosition, GeoSearchQuery, GeoSearchResult,
}
use resilix.Services.{
  Session, Outcome, send, checked, as_int, as_float, as_bool, as_positions, as_found, ignored,
}

module _ {E : Type 0} (c : Session E) where
  unfoldable pub geo_add : String → List GeoMember → World E → Outcome E ℤ
  geo_add key members =
      checked c (validate_key key)
        (send c "GEOADD" "geo" (key ∷ []) (λ n. int n) (c.backend.geo_add key members) as_int)

  unfoldable pub geo_dist : String → String → String → String → World E → Outcome E ℤ
  geo_dist key member1 member2 unit = checked c (validate_key key) (
      send c "GEODIST" "geo" (key ∷ []) (λ x. float x) (c.backend.geo_dist key member1 member2 unit)
        as_float)

  unfoldable pub geo_pos : String → List String → World E → Outcome E (List (Option GeoPosition))
  geo_pos key members = checked c (validate_key key) (
      send c "GEOPOS" "geo" (key ∷ []) (λ l. positions l) (c.backend.geo_pos key members)
        as_positions)

  unfoldable pub geo_search : String → GeoSearchQuery → World E → Outcome E (List GeoSearchResult)
  geo_search key query =
      checked c (validate_key key) (
        send c "GEOSEARCH" "geo" (key ∷ []) (λ l. found l) (c.backend.geo_search key query)
          as_found)

  unfoldable pub hll_add : String → List Value → World E → Outcome E Bool
  hll_add key elements =
      checked c (validate_key key)
        (send c "PFADD" "hll" (key ∷ []) (λ b. bool b) (c.backend.pfadd key elements) as_bool)

  unfoldable pub hll_count : List String → World E → Outcome E ℤ
  hll_count keys =
      checked c (validate_keys keys)
        (send c "PFCOUNT" "hll" keys (λ n. int n) (c.backend.pfcount keys) as_int)

  unfoldable pub hll_merge : String → List String → World E → Outcome E (Unit {0})
  hll_merge dest keys =
      checked c (validate_key dest)
        (send c "PFMERGE" "hll" (dest ∷ keys) (λ u. nil) (c.backend.pfmerge dest keys) ignored)

  unfoldable pub bit_set : String → ℤ → ℤ → World E → Outcome E ℤ
  bit_set key offset value =
      checked c (validate_key key)
        (send c "SETBIT" "bit" (key ∷ []) (λ n. int n) (c.backend.set_bit key offset value) as_int)

  unfoldable pub bit_get : String → ℤ → World E → Outcome E ℤ
  bit_get key offset =
      checked c (validate_key key)
        (send c "GETBIT" "bit" (key ∷ []) (λ n. int n) (c.backend.get_bit key offset) as_int)

  unfoldable pub bit_count : String → ℤ → ℤ → World E → Outcome E ℤ
  bit_count key start end =
      checked c (validate_key key)
        (send c "BITCOUNT" "bit" (key ∷ []) (λ n. int n) (c.backend.bit_count key start end) as_int)

  unfoldable pub bit_op : String → String → List String → World E → Outcome E ℤ
  bit_op op dest keys =
      checked c (validate_key dest)
        (send c "BITOP" "bit" (dest ∷ keys) (λ n. int n) (c.backend.bit_op op dest keys) as_int)

  unfoldable pub bit_pos : String → ℤ → List ℤ → World E → Outcome E ℤ
  bit_pos key bit places =
      checked c (validate_key key)
        (send c "BITPOS" "bit" (key ∷ []) (λ n. int n) (c.backend.bit_pos key bit places) as_int)
