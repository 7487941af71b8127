-- ===== src/Mock/Scan.antt =====
-- Scan of sdk/go/resilixtest/mock.go.
use resilix.Prelude.{
  ℕ, ◌+◌, ◌-◌, String, ◌||◌, leb, ltb, List, [], ◌∷◌, length, take, drop, if◌then◌else◌,
}
use resilix.Prelude.Int.{ℤ, pos, Time, pos_part, leb_ℤ}
use resilix.Prelude.Strings.{sort_strings}
use resilix.Errors.{Result, ok}
use resilix.Mock.{Mock, KvEntry, expired, guarded}

unfoldable pub live_keys : Time → List (String × KvEntry) → List String
live_keys now [] = []
live_keys now ((k, e) ∷ l) = let rest = live_keys now l in if expired now e then rest else k ∷ rest

-- One page of the sorted keys, and the cursor of the next; 0 is the end. (The sum of the cursor and
-- the count is taken to be an `int`.)
unfoldable pub page : List String → ℕ → ℤ → List String × ℕ
page keys start count =
    let n = length keys in
    let end = start + pos_part count in
    let end' = if leb_ℤ count (pos 0) || ltb n end then n else end in
    if leb n start
    then ([], 0)
    else (take (end' - start) (drop start keys), if ltb end' n then end' else 0)

-- The pattern is not read.
unfoldable pub scan : Time → ℕ → ℤ → Mock → Result (List String × ℕ) × Mock
unfolding live_keys page
scan now cursor count =
    guarded "Scan" λ m. (ok (page (sort_strings (live_keys now m.kv.entries)) cursor count), m)
