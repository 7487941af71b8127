-- ===== src/Services/BulkGet.antt =====
-- What Bulk.Get of sdk/go/services.go returns, whatever the batch size is.
use resilix.Prelude.{
  ℕ, ◌<◌, ◌≤◌, String, ◌≡◌, refl, ap, ◌∙◌, ◌||◌, Option, none, some, List, [], ◌∷◌, ◌++◌, map,
  length, arith, eq_iff, if◌then◌else◌,
}
use resilix.Prelude.Int.{ℤ}
use resilix.Errors.{ok, err}
use resilix.Dict
use resilix.Dict.{Dict}
use resilix.Mock.Kv.Views.{elem}
use resilix.Retry.{World}
use resilix.Validation.{first_error, each_valid, validate_keys}
use resilix.Services.{Session, Outcome, checked}
use resilix.Services.Kv
use resilix.Services.Bulk.{chunk, batch_size, fill, next_get, get_batches}
use resilix.Services.Bulk
use resilix.Services.Batch.{concat, Sized, chunk-batches}

elem-append : (j : String) (ks ls : List String) → elem j (ks ++ ls) ≡ (elem j ks || elem j ls)
unfolding elem
elem-append j [] ls = refl
elem-append j (k ∷ ks) ls = ground (arith, elem-append j ks ls)

pub each_valid-append :
    (ks ls : List String)
    → each_valid (ks ++ ls) ≡ none
    → (each_valid ks ≡ none) × (each_valid ls ≡ none)
unfolding each_valid first_error
each_valid-append [] ls h = (refl, h)
each_valid-append (k ∷ ks) ls h = ground (arith, h, each_valid-append ks ls)

pub validate_keys-each : (ks : List String) → validate_keys ks ≡ none → each_valid ks ≡ none
unfolding validate_keys each_valid
validate_keys-each [] h = refl
validate_keys-each (k ∷ ks) h = h

pub each-validate_keys :
    (ks : List String) → 1 ≤ length ks → each_valid ks ≡ none → validate_keys ks ≡ none
unfolding validate_keys
each-validate_keys [] h e = absurd (omega arith)
each-validate_keys (k ∷ ks) h e = e

pub batch_size_pos : (n : ℤ) → 0 < batch_size n
unfolding batch_size
batch_size_pos n = ground arith

-- The entries of a dictionary that has been filled for keys.
abbrev pub Filled :
    (String → Option String) → List String → Dict (Option String) → Dict (Option String) → Type 0
Filled look ks d d' =
    (j : String) → Dict.get d' j ≡ (if elem j ks then some (look j) else Dict.get d j)

fill-Filled :
    (look : String → Option String) (ks : List String) (d : Dict (Option String))
    → (d' : Dict (Option String)) × (fill ks (map look ks) d ≡ some d') × Filled look ks d d'
unfolding fill elem
fill-Filled look [] d = (d, refl, λ j. refl)
fill-Filled look (k ∷ ks) d =
    let (d', run, filled) = fill-Filled look ks (Dict.put d k (look k)) in
    (d', run, λ j. ground (arith, filled j, Dict.get-put d k j (look k), eq_iff k j, ap look))

module _ {E : Type 0} (c : Session E) (look : String → Option String) (Good : World E → Type 0)
    (answers : (ks : List String) (w : World E)
      → validate_keys ks ≡ none
      → Good w
      → ((Kv.mget c ks w).0 ≡ some (ok (map look ks))) × Good (Kv.mget c ks w).1) where
  next_get-on :
      (batch : List String) (d d' : Dict (Option String))
      (next : Dict (Option String) → World E → Outcome E (Dict (Option String)))
      (r : Outcome E (List (Option String)))
      → r.0 ≡ some (ok (map look batch))
      → fill batch (map look batch) d ≡ some d'
      → next_get c batch d next r ≡ next d' r.1
  unfolding next_get
  next_get-on batch d d' next (none, w) h f = ground (arith, h)
  next_get-on batch d d' next (some (err e), w) h f = ground (arith, h)
  next_get-on batch d d' next (some (ok l), w) h f = ground (arith, h, f)

  get_batches-Filled :
      (size : ℕ) (batches : List (List String)) (d : Dict (Option String)) (w : World E)
      → Sized size batches
      → each_valid (concat batches) ≡ none
      → Good w
      → (d' : Dict (Option String)) × ((get_batches c batches d w).0 ≡ some (ok d'))
        × Filled look (concat batches) d d'
  unfolding get_batches elem
  get_batches-Filled size [] d w sized valid good = (d, refl, λ j. refl)
  get_batches-Filled size (batch ∷ batches) d w (full, small, sized) valid good =
      let (here, later) = each_valid-append batch (concat batches) valid in
      let (read, good') = answers batch w (each-validate_keys batch full here) good in
      let (d1, run, filled) = fill-Filled look batch d in
      let (d2, run', filled') =
        get_batches-Filled size batches d1 (Kv.mget c batch w).1 sized later good' in
      let step =
        next_get-on batch d d1 (λ d w'. get_batches c batches d w') (Kv.mget c batch w) read run in
      (
        d2,
        ap (λ r. r.0) step ∙ run',
        λ j. ground (arith, filled j, filled' j, elem-append j batch (concat batches)),
      )

  -- Where the state keeps the client's MGet true to a lookup, Bulk.Get of valid keys returns the
  -- dictionary of that lookup on those keys.
  pub bulk_get :
      (keys : List String) (size : ℤ) (w : World E)
      → validate_keys keys ≡ none
      → Good w
      → (d : Dict (Option String)) × ((Bulk.get c keys size w).0 ≡ some (ok d))
        × ((j : String) → Dict.get d j ≡ (if elem j keys then some (look j) else none))
  unfolding Bulk.get checked Dict.empty
  bulk_get keys size w valid good =
      let (whole, sized) = chunk-batches keys (batch_size size) (batch_size_pos size) in
      let (d, run, filled) =
        get_batches-Filled (batch_size size) (chunk keys (batch_size size)) Dict.empty w sized
          (ap (λ l. each_valid l) whole ∙ validate_keys-each keys valid) good in
      (
        d,
        rw valid run,
        λ j.
            filled j
            ∙ rw whole
                (ap (λ o. if elem j keys then some (look j) else o) (unfold Dict.get in refl)),
      )
