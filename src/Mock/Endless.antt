-- ===== src/Mock/Endless.antt =====
-- A scan of the mock backend, in sdk/go/resilixtest/mock.go, whose keys do not expire.
use resilix.Prelude.{ℕ, String, ◌≡◌, refl, ◌∙◌, none, List, [], ◌∷◌}
use resilix.Prelude.Int.{ℤ, Time}
use resilix.Prelude.Strings.{sort_strings}
use resilix.Errors.{ok}
use resilix.Mock.{Mock, KvEntry, expired}
use resilix.Mock.Injected.{NoError, counted, guarded-body}
use resilix.Mock.Scan.{live_keys, page, scan}

-- No entry has a time to live.
abbrev pub Endless : List (String × KvEntry) → Type 0
Endless [] = Unit {0}
Endless ((k, e) ∷ l) = (e.expiry ≡ none) × Endless l

abbrev pub names : List (String × KvEntry) → List String
names [] = []
names ((k, e) ∷ l) = k ∷ names l

live_keys-Endless : (t : Time) (l : List (String × KvEntry)) → Endless l → live_keys t l ≡ names l
unfolding live_keys expired
live_keys-Endless t [] h = refl
live_keys-Endless t ((k, e) ∷ l) (h, hs) = rw (h, live_keys-Endless t l hs) refl

pub scan-Endless :
    (t : Time) (cursor : ℕ) (count : ℤ) (m : Mock)
    → Endless m.kv.entries
    → NoError "Scan" m
    → scan t cursor count m
      ≡ (ok (page (sort_strings (names m.kv.entries)) cursor count), counted "Scan" m)
unfolding scan
scan-Endless t cursor count m lasts free =
    guarded-body "Scan" (λ m. (ok (page (sort_strings (live_keys t m.kv.entries)) cursor count), m))
      m free
    ∙ rw (live_keys-Endless t m.kv.entries lasts) refl
