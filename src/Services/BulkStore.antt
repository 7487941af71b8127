-- ===== src/Services/BulkStore.antt =====
-- Bulk.Get of sdk/go/services.go through a client at rest above the mock backend.
use resilix.Prelude.{
  String, ◌≡◌, refl, sym, ap, subst, ◌∙◌, Option, none, some, List, [], ◌∷◌, map, arith,
  if◌then◌else◌, Option-cases, inl, inr,
}
use resilix.Prelude.Int.{ℤ, Time}
use resilix.Errors.{ok}
use resilix.Dict
use resilix.Mock.{Mock, KvEntry, expired, get_kv}
use resilix.Mock.Injected.{NoError, counted, guarded-body}
use resilix.Mock.Kv.{get_each, mget}
use resilix.Mock.Kv.Views.{elem, value_of}
use resilix.Contract.{values}
use resilix.Retry.{World}
use resilix.Validation.{validate_keys}
use resilix.Services.{Session, checked, as_values}
use resilix.Services.Kv
use resilix.Services.Bulk
use resilix.Services.Quiet.{Calm, Quiet, Serves, send-served}
use resilix.Services.BulkGet.{bulk_get}

-- No key has a time to live.
abbrev pub Lasting : Mock → Type 0
Lasting m = (k : String) (e : KvEntry) → Dict.get m.kv k ≡ some e → e.expiry ≡ none

-- The text that is stored for a key.
abbrev pub stored : Mock → String → Option String
stored m k = value_of (Dict.get m.kv k)

get_kv-Lasting : (now : Time) (k : String) (m : Mock) → Lasting m → get_kv now k m ≡ (stored m k, m)
unfolding get_kv expired
get_kv-Lasting now k m lasts = elim (Option-cases (Dict.get m.kv k)) [
  | inl p ↦ ground (arith, p)
  | inr (e, p) ↦ ground (arith, p, lasts k e p)
]

get_each-Lasting :
    (now : Time) (ks : List String) (m : Mock)
    → Lasting m
    → get_each now ks m ≡ (map (stored m) ks, m)
unfolding get_each
get_each-Lasting now [] m lasts = refl
get_each-Lasting now (k ∷ ks) m lasts =
    rw (get_kv-Lasting now k m lasts, get_each-Lasting now ks m lasts) refl

mget-Lasting :
    (now : Time) (ks : List String) (m : Mock)
    → Lasting m
    → NoError "MGet" m
    → mget now ks m ≡ (ok (map (stored m) ks), counted "MGet" m)
unfolding mget
mget-Lasting now ks m lasts none_set =
    guarded-body "MGet" (λ m. (ok (get_each now ks m).0, (get_each now ks m).1)) m none_set
    ∙ rw (get_each-Lasting now ks (counted "MGet" m) lasts) refl

module _ {E : Type 0} (c : Session E) (view : E → Mock) (quiet : Quiet c view)
    (reads : (keys : List String)
      → Serves c.now view (c.backend.mget keys) (λ t m. mget t keys m)) where
  -- At rest, with the keys of the state that is given, which last, and with no error to return.
  abbrev Like : Mock → Mock → Type 0
  Like m0 m = (m.kv ≡ m0.kv) × NoError "MGet" m

  mget-Like :
      (m0 : Mock) (ks : List String) (w : World E)
      → Lasting m0
      → validate_keys ks ≡ none
      → Calm w × Like m0 (view w.env)
      → ((Kv.mget c ks w).0 ≡ some (ok (map (stored m0) ks)))
        × (Calm (Kv.mget c ks w).1 × Like m0 (view (Kv.mget c ks w).1.env))
  unfolding Kv.mget checked as_values
  mget-Like m0 ks w lasts valid (calm, (same, free)) =
      let m = view w.env in
      let (t, served) =
        send-served c view quiet (λ l. values l) (c.backend.mget ks) (λ t m. mget t ks m) (reads ks)
          as_values "MGET" "kv" ks w calm in
      let run =
        mget-Lasting t ks m (λ k e p. lasts k e (ap (λ d. Dict.get d k) (sym same) ∙ p)) free in
      let (done, calm', left) =
        served (map (stored m) ks) (map (stored m) ks) (ap (λ r. r.0) run) refl in
      rw valid (
        done ∙ ap (λ d. some (ok (map (λ k. value_of (Dict.get d k)) ks))) same,
        (calm', subst (Like m0) (sym (left ∙ ap (λ r. r.1) run)) (same, free)),
      )

  -- Bulk.Get through a client at rest above the mock, of keys that are valid, returns for each of
  -- them the text that is stored, or nil, and nothing else, whatever the batch size is. (No key has
  -- a time to live, and no error is injected.)
  pub bulk_get-stored :
      (keys : List String) (size : ℤ) (w : World E)
      → Calm w
      → Lasting (view w.env)
      → NoError "MGet" (view w.env)
      → validate_keys keys ≡ none
      → (d : Dict.Dict (Option String)) × ((Bulk.get c keys size w).0 ≡ some (ok d))
        × ((j : String)
            → Dict.get d j ≡ (if elem j keys then some (stored (view w.env) j) else none))
  bulk_get-stored keys size w calm lasts free valid =
      let m0 = view w.env in
      bulk_get c (stored m0) (λ w'. Calm w' × Like m0 (view w'.env))
        (λ ks w' valid' good. mget-Like m0 ks w' lasts valid' good) keys size w valid
        (calm, (refl, free))
