-- ===== src/Services.antt =====
-- What the services of the client share: sdk/go/services.go, geo.go, bit.go and hll.go, each method
-- of which checks its arguments, runs one operation through execute and asserts the type of the
-- result. The children have the services. The assertion of a type that the result does not have is
-- a panic, `none`.
pub mod Kv
pub mod Hash
pub mod Lists
pub mod Sets
pub mod Zset
pub mod Messages
pub mod Script
pub mod Special
pub mod Pipeline
pub mod Bulk
pub mod Types
pub mod Batch
pub mod Quiet
pub mod Permanent
pub mod RoundTrip
pub mod BulkGet
pub mod BulkStore
pub mod Scan
pub mod ScanLoop
pub mod Scanning
pub mod Lifecycle
pub mod Closed
pub mod Closing
pub mod Making
pub mod TestClient
pub mod Tests
pub mod LifeTests
mod ScanTests
use resilix.Prelude.{ℕ, String, Bool, Option, none, some, List, [], ◌∷◌}
use resilix.Prelude.Int.{ℤ, Time, Duration}
use resilix.Errors.{Error, Result, ok, err}
use resilix.Dict.{Dict}
use resilix.Mock.{ZMember}
use resilix.Mock.Stream.{StreamReadResponse}
use resilix.Mock.Pipeline.{CommandResult}
use resilix.Contract.{
  Any, nil, str, int, float, bool, values, fields, strings, zmembers, subscription, responses,
  results, positions, found, GeoPosition, GeoSearchResult, Command, Backend,
}
use resilix.Retry.{World, Caller}
use resilix.Client.{Operation, RedisClient, execute}

-- `result.(string)` and the like; a nil interface has no type.
unfoldable pub as_str : Option Any → Option String
as_str (some (str s)) = some s
as_str _ = none

unfoldable pub as_int : Option Any → Option ℤ
as_int (some (int n)) = some n
as_int _ = none

unfoldable pub as_float : Option Any → Option ℤ
as_float (some (float x)) = some x
as_float _ = none

unfoldable pub as_bool : Option Any → Option Bool
as_bool (some (bool b)) = some b
as_bool _ = none

unfoldable pub as_values : Option Any → Option (List (Option String))
as_values (some (values l)) = some l
as_values _ = none

unfoldable pub as_fields : Option Any → Option (Dict String)
as_fields (some (fields d)) = some d
as_fields _ = none

unfoldable pub as_strings : Option Any → Option (List String)
as_strings (some (strings l)) = some l
as_strings _ = none

unfoldable pub as_zmembers : Option Any → Option (List ZMember)
as_zmembers (some (zmembers l)) = some l
as_zmembers _ = none

unfoldable pub as_subscription : Option Any → Option ℕ
as_subscription (some (subscription s)) = some s
as_subscription _ = none

unfoldable pub as_responses : Option Any → Option (List StreamReadResponse)
as_responses (some (responses l)) = some l
as_responses _ = none

unfoldable pub as_results : Option Any → Option (List CommandResult)
as_results (some (results l)) = some l
as_results _ = none

unfoldable pub as_positions : Option Any → Option (List (Option GeoPosition))
as_positions (some (positions l)) = some l
as_positions _ = none

unfoldable pub as_found : Option Any → Option (List GeoSearchResult)
as_found (some (found l)) = some l
as_found _ = none

-- The result as it is, and no look at it.
unfoldable pub as_any : Option Any → Option (Option Any)
as_any r = some r

unfoldable pub ignored : Option Any → Option (Unit {0})
ignored r = some tt

-- A client in use: with its backend, and with what the executor is given beside the command.
pub record Session (E : Type 0) : Type 0 where
  pub client : RedisClient E Any
  pub closed : Bool
  pub backend : Backend (World E)
  pub now : E → Time
  pub backoff : ℕ → World E → Duration × World E
  pub wait : Duration → World E → Option Error × World E

-- What a method returns, `none` for a panic, and the state behind it.
abbrev pub Outcome : Type 0 → Type 0 → Type 0
Outcome E T = Option (Result T) × World E

unfoldable pub boxed : {W A : Type 0} → (A → Any) → Result A × W → Result Any × W
boxed box (ok a, w) = (ok (box a), w)
boxed box (err e, w) = (err e, w)

module _ {E : Type 0} (c : Session E) where
  -- The command as the function that the executor is given, its result as an `any`.
  unfoldable pub caller : {A : Type 0} → (A → Any) → Command (World E) A → Caller E Any
  unfolding boxed
  caller box command = record {
    now = c.now;
    fn = λ w. boxed box (command w);
    backoff = c.backoff;
    wait = c.wait;
  }

  -- The error is returned before the type of the result is asserted.
  unfoldable pub unbox :
      {U : Type 0} → (Option Any → Option U) → Result (Option Any) × World E → Outcome E U
  unbox assert (err e, w) = (some (err e), w)
  unbox assert (ok r, w) = (elim (assert r) [ none ↦ none | some u ↦ some (ok u) ], w)

  unfoldable pub send :
      {A U : Type 0}
      → String
      → String
      → List String
      → (A → Any)
      → Command (World E) A
      → (Option Any → Option U)
      → World E
      → Outcome E U
  unfolding caller unbox
  send name kind keys box command assert w = unbox assert (
      execute c.client (caller box command) c.closed
        (record { name = name; kind = kind; keys = keys }) w)

  -- A method returns the first error of its checks before anything else.
  unfoldable pub checked :
      {U : Type 0} → Option Error → (World E → Outcome E U) → World E → Outcome E U
  checked (some e) method w = (some (err e), w)
  checked none method w = method w
