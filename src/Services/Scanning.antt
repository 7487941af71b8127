-- ===== src/Services/Scanning.antt =====
-- What RedisClient.Scan of sdk/go/client.go does through a client at rest above the mock backend.
use resilix.Prelude.{
  ℕ, ◌≡◌, ◌<◌, refl, sym, ap, subst, ◌∙◌, String, Option, none, some, List, [], arith, length,
}
use resilix.Prelude.Int.{ℤ, Time}
use resilix.Prelude.Strings.{sort_strings}
use resilix.Errors.{Error, Result, ok}
use resilix.Mock.{Mock, KvEntry, expired}
use resilix.Mock.Injected.{NoError, counted}
use resilix.Mock.Scan.{live_keys, page}
use resilix.Mock
use resilix.Contract.{scanned}
use resilix.Retry.{World}
use resilix.Client.Scanning.{each_key}
use resilix.Services.{Session, Outcome}
use resilix.Services.Scan
use resilix.Services.Scan.{as_scanned, scan_page, turn, read_batch, scan_loop}
use resilix.Mock.Endless.{Endless, names, scan-Endless}
use resilix.Services.ScanLoop.{verdict, scan_loop-from}
use resilix.Services.Quiet.{Calm, Quiet, Serves, send-served}

abbrev pub sorted_keys : Mock → List String
sorted_keys m = sort_strings (names m.kv.entries)

-- The mock, and beside it what the callback has.
abbrev pub scan_beside :
    {S : Type 0} → ℕ → ℤ → Time → Mock × S → Result (List String × ℕ) × (Mock × S)
scan_beside cursor count t (m, s) = let (r, m') = Mock.Scan.scan t cursor count m in (r, (m', s))

-- A callback that sees and changes no more than what it has, as `call` does.
abbrev pub Calls :
    {E S : Type 0}
    → (E → Mock × S)
    → (String → World E → Option Error × World E)
    → (String → S → Option Error × S)
    → Type 0
Calls {E} view fn call =
    (k : String) (w : World E)
    → ((fn k w).0 ≡ (call k (view w.env).1).0)
      × (view (fn k w).1.env ≡ ((view w.env).0, (call k (view w.env).1).1))
      × ((fn k w).1.breaker ≡ w.breaker)

module _ {E S : Type 0} (c : Session E) (view : E → Mock × S) (quiet : Quiet c view)
    (pattern : String) (count : ℤ)
    (serves : (cursor : ℕ)
      → Serves c.now view (c.backend.scan cursor pattern count) (scan_beside cursor count))
    (fn : String → World E → Option Error × World E) (call : String → S → Option Error × S)
    (calls : Calls view fn call) where
  -- At rest, with the keys of a mock, no error to return, and what the callback has.
  abbrev At : Mock → S → World E → Type 0
  At m0 s w =
      Calm w × ((view w.env).0.kv ≡ m0.kv) × NoError "Scan" (view w.env).0 × ((view w.env).1 ≡ s)

  fn-At :
      (m0 : Mock) (s : S) (k : String) (w : World E)
      → At m0 s w
      → ((fn k w).0 ≡ (call k s).0) × At m0 (call k s).1 (fn k w).1
  fn-At m0 s k w (calm, same, free, seen) =
      let (gives, leaves, still) = calls k w in
      let store : (view (fn k w).1.env).0 ≡ (view w.env).0 = ap (λ p. p.0) leaves in
      (
        gives ∙ ap (λ x. (call k x).0) seen,
        (
          λ b e. calm b (sym still ∙ e),
          ap (λ m. m.kv) store ∙ same,
          subst (NoError "Scan") (sym store) free,
          ap (λ p. p.1) leaves ∙ ap (λ x. (call k x).1) seen,
        ),
      )

  module _ (m0 : Mock) (lasts : Endless m0.kv.entries) where
    abbrev keys : List String
    keys = sort_strings (names m0.kv.entries)

    scan_page-At :
        (cursor : ℕ) (s : S) (w : World E)
        → At m0 s w
        → ((scan_page c pattern count fn cursor w).0 ≡ some (ok (page keys cursor count)))
          × At m0 s (scan_page c pattern count fn cursor w).1
    unfolding scan_page as_scanned
    scan_page-At cursor s w (calm, same, free, seen) =
        let m = (view w.env).0 in
        let (t, served) =
          send-served c view quiet (λ r. scanned r.0 r.1) (c.backend.scan cursor pattern count)
            (scan_beside cursor count) (serves cursor) as_scanned "SCAN" "scan" [] w calm in
        let run =
          scan-Endless t cursor count m (subst (λ d. Endless d.entries) (sym same) lasts) free in
        let found : page (sort_strings (names m.kv.entries)) cursor count ≡ page keys cursor count =
          ap (λ d. page (sort_strings (names d.entries)) cursor count) same in
        let (done, calm', left) =
          served (page keys cursor count) (page keys cursor count)
            (ap (λ r. r.0) run ∙ ap (λ l. ok l) found) refl in
        let store : (view (scan_page c pattern count fn cursor w).1.env).0 ≡ counted "Scan" m =
          ap (λ p. p.0) left ∙ ap (λ r. r.1) run in
        (
          done,
          (
            calm',
            ap (λ m. m.kv) store ∙ same,
            subst (NoError "Scan") (sym store) free,
            ap (λ p. p.1) left ∙ seen,
          ),
        )

  -- Through a client at rest above the mock, with one round of fuel for each key and one more, Scan
  -- ends, whatever count is asked for. It has called the callback on the stored keys, sorted, up to the
  -- callback's first error, which it returns; it leaves the keys as they are and the client at rest.
  -- (No key has a time to live, no error is injected, and the callback keeps away from the mock and the
  -- breaker.)
  pub scan-each_key :
      (fuel : ℕ) (w : World E)
      → Calm w
      → Endless (view w.env).0.kv.entries
      → NoError "Scan" (view w.env).0
      → length (sorted_keys (view w.env).0) < fuel
      → let (answer, s') = each_key call (sorted_keys (view w.env).0) (none, (view w.env).1) in
        (r : Outcome E (Unit {0})) × (Scan.scan c pattern count fn fuel w ≡ some r)
        × (r.0 ≡ some (verdict answer))
        × ((view r.1.env).1 ≡ s')
        × ((view r.1.env).0.kv ≡ (view w.env).0.kv)
        × Calm r.1
  unfolding Scan.scan
  scan-each_key fuel w calm lasts free h =
      let (m, s) = view w.env in
      let (r, ended, answer, (calm', same, free', seen)) =
        scan_loop-from c pattern count fn call (At m) (λ k s' w' here. fn-At m s' k w' here)
          (sorted_keys m) (scan_page-At m lasts) fuel 0 (omega arith) s w
          (calm, refl, free, refl) in
      (r, ended, answer, seen, same, calm')
