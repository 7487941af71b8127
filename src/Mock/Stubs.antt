-- ===== src/Mock/Stubs.antt =====
-- The commands of sdk/go/resilixtest/mock.go that compute nothing: Ping, PoolStats, and the geo and
-- bit commands. Their other arguments are not read.
use resilix.Prelude.{ℕ, String, Option, none, List, [], length, replicate}
use resilix.Prelude.Int.{ℤ, pos}
use resilix.Errors.{Result, ok}
use resilix.Mock.{Mock, guarded}

pub record PoolStats : Type 0 where
  pub hits : ℕ
  pub misses : ℕ
  pub timeouts : ℕ
  pub total_conns : ℕ
  pub idle_conns : ℕ
  pub stale_conns : ℕ

unfoldable pub pool_stats : PoolStats
pool_stats = record {
  hits = 0;
  misses = 0;
  timeouts = 0;
  total_conns = 1;
  idle_conns = 1;
  stale_conns = 0;
}

unfoldable pub ping : Mock → Result (Unit {0}) × Mock
ping = guarded "Ping" λ m. (ok tt, m)

unfoldable pub geo_add : Mock → Result ℕ × Mock
geo_add = guarded "GeoAdd" λ m. (ok 0, m)

unfoldable pub geo_dist : Mock → Result ℤ × Mock
geo_dist = guarded "GeoDist" λ m. (ok (pos 0), m)

-- A nil position for each member.
unfoldable pub geo_pos : List String → Mock → Result (List (Option (ℤ × ℤ))) × Mock
geo_pos members = guarded "GeoPos" λ m. (ok (replicate (length members) none), m)

unfoldable pub geo_search : Mock → Result (List String) × Mock
geo_search = guarded "GeoSearch" λ m. (ok [], m)

unfoldable pub set_bit : Mock → Result ℕ × Mock
set_bit = guarded "SetBit" λ m. (ok 0, m)

unfoldable pub get_bit : Mock → Result ℕ × Mock
get_bit = guarded "GetBit" λ m. (ok 0, m)

unfoldable pub bit_count : Mock → Result ℕ × Mock
bit_count = guarded "BitCount" λ m. (ok 0, m)

unfoldable pub bit_op : Mock → Result ℕ × Mock
bit_op = guarded "BitOp" λ m. (ok 0, m)

unfoldable pub bit_pos : Mock → Result ℕ × Mock
bit_pos = guarded "BitPos" λ m. (ok 0, m)
