-- ===== src/Services/Scan.antt =====
-- RedisClient.Scan of sdk/go/client.go: each page is an operation of the client, and the callback is
-- called on its keys. The keys of the operation are none; its attribute, the pattern, is left out.
use resilix.Prelude.{ℕ, zero, suc, String, ◌==◌, Option, none, some, List, [], if◌then◌else◌}
use resilix.Prelude.Int.{ℤ}
use resilix.Errors.{Error, ok, err}
use resilix.Contract.{Any, scanned}
use resilix.Retry.{World}
use resilix.Client.Scanning.{each_key}
use resilix.Services.{Session, Outcome, send}

unfoldable pub as_scanned : Option Any → Option (List String × ℕ)
as_scanned (some (scanned keys next)) = some (keys, next)
as_scanned _ = none

module _ {E : Type 0} (c : Session E) (pattern : String) (count : ℤ)
    (fn : String → World E → Option Error × World E) where
  -- One page, and the cursor of the next.
  unfoldable pub scan_page : ℕ → World E → Outcome E (List String × ℕ)
  scan_page cursor =
      send c "SCAN" "scan" [] (λ r. scanned r.0 r.1) (c.backend.scan cursor pattern count)
        as_scanned

  -- On to the next page, unless the callback has failed or the cursor is 0.
  unfoldable pub turn :
      (ℕ → World E → Option (Outcome E (Unit {0})))
      → ℕ
      → Option Error × World E
      → Option (Outcome E (Unit {0}))
  turn next cursor (some e, w) = some (some (err e), w)
  turn next cursor (none, w) =
      let rest = next cursor w in if cursor == 0 then some (some (ok tt), w) else rest

  unfoldable pub read_batch :
      (ℕ → World E → Option (Outcome E (Unit {0})))
      → Outcome E (List String × ℕ)
      → Option (Outcome E (Unit {0}))
  unfolding turn each_key
  read_batch next (none, w) = some (none, w)
  read_batch next (some (err e), w) = some (some (err e), w)
  read_batch next (some (ok (keys, cursor)), w) = turn next cursor (each_key fn keys (none, w))

  -- The loop from a cursor on; the outer `none` is the end of the fuel.
  unfoldable pub scan_loop : ℕ → ℕ → World E → Option (Outcome E (Unit {0}))
  unfolding scan_page read_batch
  scan_loop zero cursor w = none
  scan_loop (suc fuel) cursor w =
      read_batch (λ next w'. scan_loop fuel next w') (scan_page cursor w)

  unfoldable pub scan : ℕ → World E → Option (Outcome E (Unit {0}))
  unfolding scan_loop
  scan fuel w = scan_loop fuel 0 w
