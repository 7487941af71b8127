-- ===== src/Services/ScanLoop.antt =====
-- The loop of RedisClient.Scan in sdk/go/client.go, over an invariant that its pages and its callback
-- keep.
use resilix.Prelude.{
  ℕ, zero, suc, ◌-◌, ◌≡◌, ◌<◌, ◌≤◌, refl, sym, ap, subst, ◌∙◌, String, false, Option, none, some,
  List, [], ◌∷◌, arith, length, take, drop, ltb, ◌==◌, inl, inr, Bool-cases,
}
use resilix.Prelude.Int.{ℤ}
use resilix.Errors.{Error, Result, ok, err}
use resilix.Mock.Scan.{page}
use resilix.Retry.{World}
use resilix.Client.Scanning.{
  each_key, each_key-append, each_key-error, end_of, end_of-bounds, page-full, page-past, page_rest,
  drop-length,
}
use resilix.Services.{Session, Outcome}
use resilix.Services.Scan.{scan_page, turn, read_batch, scan_loop}

-- What Scan returns at the verdict of the callback.
abbrev pub verdict : Option Error → Result (Unit {0})
verdict none = ok tt
verdict (some e) = err e

-- `At s w` is what stays true of a state in which the callback has `s`; the pages are those of `keys`.
module _ {E S : Type 0} (c : Session E) (pattern : String) (count : ℤ)
    (fn : String → World E → Option Error × World E) (call : String → S → Option Error × S)
    (At : S → World E → Type 0)
    (keeps : (k : String) (s : S) (w : World E)
      → At s w
      → ((fn k w).0 ≡ (call k s).0) × At (call k s).1 (fn k w).1)
    (keys : List String)
    (pages : (cursor : ℕ) (s : S) (w : World E)
      → At s w
      → ((scan_page c pattern count fn cursor w).0 ≡ some (ok (page keys cursor count)))
        × At s (scan_page c pattern count fn cursor w).1) where
  -- How the loop ends: with the verdict of the callback, in a state that it has left.
  abbrev pub Ends : Option Error × S → Option (Outcome E (Unit {0})) → Type 0
  Ends v o = (r : Outcome E (Unit {0})) × (o ≡ some r) × (r.0 ≡ some (verdict v.0)) × At v.1 r.1

  each_key-At :
      (ks : List String) (p : Option Error × World E) (q : Option Error × S)
      → p.0 ≡ q.0
      → At q.1 p.1
      → ((each_key fn ks p).0 ≡ (each_key call ks q).0)
        × At (each_key call ks q).1 (each_key fn ks p).1
  unfolding each_key
  each_key-At [] p q same here = (same, here)
  each_key-At (k ∷ ks) (some e, w) (some e', s) same here = (same, here)
  each_key-At (k ∷ ks) (none, w) (some e', s) same here = absurd (ground (arith, same))
  each_key-At (k ∷ ks) (some e, w) (none, s) same here = absurd (ground (arith, same))
  each_key-At (k ∷ ks) (none, w) (none, s) same here =
      let (gives, there) = keeps k s w here in each_key-At ks (fn k w) (call k s) gives there

  -- The rest of the loop behind a page, on a callback that has run and one that is to run.
  abbrev pub Goes : (ℕ → World E → Option (Outcome E (Unit {0}))) → ℕ → Type 0
  Goes next start =
      (s : S) (w : World E)
      → At s w
      → Ends (each_key call (drop start keys) (none, s)) (next start w)

  turn-more :
      (next : ℕ → World E → Option (Outcome E (Unit {0}))) (start : ℕ) (p : Option Error × World E)
      (q : Option Error × S)
      → ((start == 0) ≡ false)
      → p.0 ≡ q.0
      → At q.1 p.1
      → Goes next start
      → Ends (each_key call (drop start keys) q) (turn c pattern count fn next start p)
  unfolding turn
  turn-more next start (some e, w) (some e', s) nz same here goes =
      subst (λ v. Ends v (some (some (err e), w)))
        (sym (each_key-error call (drop start keys) e' s))
        ((some (err e), w), refl, ap (λ x. some (verdict x)) same, here)
  turn-more next start (none, w) (some e', s) nz same here goes = absurd (ground (arith, same))
  turn-more next start (some e, w) (none, s) nz same here goes = absurd (ground (arith, same))
  turn-more next start (none, w) (none, s) nz same here goes = rw nz (goes s w here)

  turn-last :
      (next : ℕ → World E → Option (Outcome E (Unit {0}))) (p : Option Error × World E)
      (q : Option Error × S)
      → p.0 ≡ q.0
      → At q.1 p.1
      → Ends q (turn c pattern count fn next 0 p)
  unfolding turn
  turn-last next (some e, w) (some e', s) same here =
      ((some (err e), w), refl, ap (λ x. some (verdict x)) same, here)
  turn-last next (none, w) (some e', s) same here = absurd (ground (arith, same))
  turn-last next (some e, w) (none, s) same here = absurd (ground (arith, same))
  turn-last next (none, w) (none, s) same here = ((some (ok tt), w), refl, refl, here)

  read_batch-ok :
      (next : ℕ → World E → Option (Outcome E (Unit {0}))) (ks : List String) (cursor : ℕ)
      (r : Outcome E (List String × ℕ))
      → r.0 ≡ some (ok (ks, cursor))
      → read_batch c pattern count fn next r
        ≡ turn c pattern count fn next cursor (each_key fn ks (none, r.1))
  unfolding read_batch
  read_batch-ok next ks cursor (none, w) h = ground (arith, h)
  read_batch-ok next ks cursor (some (err e), w) h = ground (arith, h)
  read_batch-ok next ks cursor (some (ok p), w) h = ground (arith, h)

  along :
      (v v' : Option Error × S) (o o' : Option (Outcome E (Unit {0})))
      → v ≡ v'
      → o ≡ o'
      → Ends v o
      → Ends v' o'
  along v v' o o' p q e = subst (λ x. Ends v' x) q (subst (λ x. Ends x o) p e)

  -- One turn of the loop, from a page that the mock has read.
  module _ (next : ℕ → World E → Option (Outcome E (Unit {0}))) (start : ℕ) (s : S)
      (r : Outcome E (List String × ℕ)) (read : r.0 ≡ some (ok (page keys start count)))
      (there : At s r.1) where
    abbrev Turned : Type 0
    Turned = Ends (each_key call (drop start keys) (none, s)) (read_batch c pattern count fn next r)

    page_past : length keys ≤ start → Turned
    unfolding each_key
    page_past past =
        let read' = read ∙ ap (λ p. some (ok p)) (page-past keys start count past) in
        along (none, s) _ _ _
          (ap (λ l. each_key call l (none, s)) (sym (drop-length start keys past)))
          (sym (read_batch-ok next [] 0 r read')) (turn-last next (none, r.1) (none, s) refl there)

    page_within : start < length keys → Goes next (end_of keys start count) → Turned
    unfolding each_key
    page_within more goes =
        let (lower, upper) = end_of-bounds keys start count more in
        let end = end_of keys start count in
        let batch = take (end - start) (drop start keys) in
        let q = each_key call batch (none, s) in
        let (same, at) = each_key-At batch (none, r.1) (none, s) refl there in
        let full = read ∙ ap (λ p. some (ok p)) (page-full keys start count more) in
        let whole : each_key call (drop end keys) q ≡ each_key call (drop start keys) (none, s) =
          sym (each_key-append call batch (drop end keys) (none, s))
          ∙ ap (λ l. each_key call l (none, s))
              (page_rest start (end - start) end keys (omega (arith, lower))) in
        elim (Bool-cases (ltb end (length keys))) [
          | inl go ↦
              along (each_key call (drop end keys) q) _ _ _ whole
                (sym (read_batch-ok next batch end r (full ∙ rw go refl)))
                (turn-more next end (each_key fn batch (none, r.1)) q (ground (arith, lower)) same
                  at goes)
          | inr stop ↦
              along q _ _ _
                (ap (λ l. each_key call l q) (sym (drop-length end keys (ground (arith, stop))))
                  ∙ whole)
                (sym (read_batch-ok next batch 0 r (full ∙ rw stop refl)))
                (turn-last next (each_key fn batch (none, r.1)) q same at)
        ]

  pub scan_loop-from :
      (fuel start : ℕ)
      → length keys - start < fuel
      → Goes (λ n w. scan_loop c pattern count fn fuel n w) start
  unfolding scan_loop
  scan_loop-from zero start h s w here = absurd (omega arith)
  scan_loop-from (suc fuel) start h s w here =
      let (read, there) = pages start s w here in
      let r = scan_page c pattern count fn start w in
      let next : ℕ → World E → Option (Outcome E (Unit {0})) =
        λ n w'. scan_loop c pattern count fn fuel n w' in
      elim (Bool-cases (ltb start (length keys))) [
        | inr past ↦ page_past next start s r read there (ground (arith, past))
        | inl more ↦
            let (lower, upper) = end_of-bounds keys start count (ground (arith, more)) in
            page_within next start s r read there (ground (arith, more))
              (scan_loop-from fuel (end_of keys start count) (omega (arith, lower, upper)))
      ]
