-- ===== src/Driver/Special.antt =====
-- The methods of positions, HyperLogLogs and bits: sdk/go/internal/driver/goredis/driver.go. The
-- conversion `int(query.Count)` keeps the value, where an int has 64 bits.
use resilix.Prelude.{
  ℕ, ◌-◌, ◌%◌, leb, ◌==◌, String, Bool, false, Option, none, some, List, [], ◌∷◌, map, str_eq, not,
  if◌then◌else◌,
}
use resilix.Prelude.Int.{ℤ, pos, negsuc}
use resilix.Errors.{err, wrapped, is_word}
use resilix.Mock.{Value}
use resilix.Contract.{Command, GeoPosition, GeoBox, GeoMember, GeoSearchQuery, GeoSearchResult}
use resilix.Driver.{normalized, answered, bit_op_not_args, unknown_bit_op}
use resilix.Driver.Redis.{UniversalClient, GeoLocation, GeoPos, SearchQuery}

-- `value == 1`
abbrev is_one : ℤ → Bool
is_one (pos n) = n == 1
is_one (negsuc n) = false

-- `int8(n)`: the value modulo 2^8 between -128 and 127.
unfoldable pub int8_of : ℕ → ℤ
int8_of n = if leb 128 n then negsuc (255 - n) else pos n

unfoldable pub int8 : ℤ → ℤ
unfolding int8_of
int8 (pos n) = int8_of (n % 256)
int8 (negsuc n) = int8_of (255 - n % 256)

abbrev pub to_location : GeoMember → GeoLocation
to_location m = record {
  name = m.name;
  longitude = m.longitude;
  latitude = m.latitude;
  dist = pos 0;
  geo_hash = pos 0;
}

abbrev pub to_position : Option GeoPos → Option GeoPosition
to_position none = none
to_position (some p) = some (record { longitude = p.longitude; latitude = p.latitude })

abbrev to_found : Bool → GeoLocation → GeoSearchResult
to_found with_coord loc = record {
  name = loc.name;
  distance = loc.dist;
  geo_hash = loc.geo_hash;
  coord =
      if with_coord
      then some (record { longitude = loc.longitude; latitude = loc.latitude })
      else none;
}

-- Where the search starts: a member, a position, or neither.
abbrev from_position : Option GeoPosition → SearchQuery → SearchQuery
from_position none args = args
from_position (some p) args = record args { longitude = p.longitude; latitude = p.latitude }

-- How far it goes: a box or a radius.
abbrev within : GeoSearchQuery → Option GeoBox → SearchQuery → SearchQuery
within query none args = record args { radius = query.by_radius; radius_unit = query.unit }
within query (some box) args = record args {
  box_width = box.width;
  box_height = box.height;
  box_unit = query.unit;
}

unfoldable pub search_args : GeoSearchQuery → SearchQuery
search_args query =
    let args : SearchQuery = record {
      member = "";
      longitude = pos 0;
      latitude = pos 0;
      radius = pos 0;
      radius_unit = "";
      box_width = pos 0;
      box_height = pos 0;
      box_unit = "";
      sort = query.sort;
      count = query.count;
      count_any = query.any;
    } in
    within query query.by_box (
      if not (str_eq query.from_member "")
      then record args { member = query.from_member }
      else from_position query.from_coord args)

module _ {W : Type 0} (r : UniversalClient W) where
  unfoldable pub geo_add : String → List GeoMember → Command W ℤ
  geo_add key members = normalized (r.geo_add key (map to_location members))

  unfoldable pub geo_dist : String → String → String → String → Command W ℤ
  geo_dist key member1 member2 unit = normalized (r.geo_dist key member1 member2 unit)

  unfoldable pub geo_pos : String → List String → Command W (List (Option GeoPosition))
  geo_pos key members = λ w. answered (λ l. map to_position l) (r.geo_pos key members w)

  unfoldable pub geo_search : String → GeoSearchQuery → Command W (List GeoSearchResult)
  unfolding search_args
  geo_search key query w =
      answered (λ l. map (to_found query.with_coord) l)
        (r.geo_search_location key
          (record {
            query = search_args query;
            with_coord = query.with_coord;
            with_dist = query.with_dist;
          })
          w)

  unfoldable pub pfadd : String → List Value → Command W Bool
  pfadd key elements = λ w. answered is_one (r.pfadd key elements w)

  unfoldable pub pfcount : List String → Command W ℤ
  pfcount keys = normalized (r.pfcount keys)

  unfoldable pub pfmerge : String → List String → Command W (Unit {0})
  pfmerge dest keys = normalized (r.pfmerge dest keys)

  unfoldable pub set_bit : String → ℤ → ℤ → Command W ℤ
  set_bit key offset value = normalized (r.set_bit key offset value)

  unfoldable pub get_bit : String → ℤ → Command W ℤ
  get_bit key offset = normalized (r.get_bit key offset)

  unfoldable pub bit_count : String → ℤ → ℤ → Command W ℤ
  bit_count key start end_ = normalized (r.bit_count key start end_)

  unfoldable pub negated : String → List String → Command W ℤ
  negated dest [] w = (err bit_op_not_args, w)
  negated dest (key ∷ keys) w = normalized (r.bit_op_not dest key) w

  unfoldable pub bit_op : String → String → List String → Command W ℤ
  unfolding is_word negated
  bit_op op dest keys w =
      if is_word "AND" op
      then normalized (r.bit_op_and dest keys) w
      else if is_word "OR" op
      then normalized (r.bit_op_or dest keys) w
      else if is_word "XOR" op
      then normalized (r.bit_op_xor dest keys) w
      else if is_word "NOT" op
      then negated dest keys w
      else (err (wrapped unknown_bit_op op), w)

  unfoldable pub bit_pos : String → ℤ → List ℤ → Command W ℤ
  unfolding int8
  bit_pos key bit [] = normalized (r.bit_pos key bit)
  bit_pos key bit (start ∷ []) = normalized (r.bit_pos_span key (int8 bit) start (negsuc 0) "BYTE")
  bit_pos key bit (start ∷ end_ ∷ more) =
      normalized (r.bit_pos_span key (int8 bit) start end_ "BYTE")
