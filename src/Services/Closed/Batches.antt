-- ===== src/Services/Closed/Batches.antt =====
-- The methods in batches, of bulkService in sdk/go/services.go, on a client that is closed.
use resilix.Prelude.{
  Option-cases, inl, inr, ℕ, ◌≡◌, refl, true, ap, ◌∙◌, Option, none, some, List, [], ◌∷◌, String,
  arith,
}
use resilix.Prelude.Int.{ℤ, pos, Duration}
use resilix.Errors.{Error, err, client_closed}
use resilix.Retry.{World}
use resilix.Validation.{each_valid, validate_keys}
use resilix.Contract.{results}
use resilix.Services.{Session, checked, as_results}
use resilix.Services.Kv
use resilix.Services.Pipeline.{Builder, built, pipeline}
use resilix.Services.Bulk
use resilix.Services.Bulk.{
  Tally, chunk, batch_size, build_expires, checked_total, get_batches, delete_batches,
  expire_batches, next_get, next_total,
}
use resilix.Services.Batch.{concat, Sized, chunk-batches}
use resilix.Services.BulkGet.{
  batch_size_pos, each_valid-append, validate_keys-each, each-validate_keys,
}
use resilix.Services.Closed.Data.{kv-closed}
use resilix.Services.Closed.{Refuses, send-closed}

-- A method that returns a total beside its error refuses with the total 0.
abbrev pub RefusesTotal : {E : Type 0} → Option Error → (World E → Option Tally × World E) → Type 0
RefusesTotal {E} check method =
    (w : World E)
    → method w ≡ (
      some (record {
        total = pos 0;
        error = some (elim check [ none ↦ client_closed | some e ↦ e ]);
      }),
      w,
    )

-- Keys that are valid have a first batch, whose keys are valid.
first_batch :
    (batches : List (List String)) (keys : List String) (size : ℕ)
    → concat batches ≡ keys
    → Sized size batches
    → validate_keys keys ≡ none
    → (b : List String) × (bs : List (List String)) × (batches ≡ b ∷ bs) × (validate_keys b ≡ none)
unfolding validate_keys
first_batch [] [] size whole sized valid = absurd (ground (arith, valid))
first_batch [] (k ∷ ks) size whole sized valid = absurd (ground (arith, whole))
first_batch (b ∷ bs) keys size whole (full, small, sized) valid =
    let (here, later) =
      each_valid-append b (concat bs)
        (ap (λ l. each_valid l) whole ∙ validate_keys-each keys valid) in
    (b, bs, refl, each-validate_keys b full here)

module _ {E : Type 0} (c : Session E) (h : c.closed ≡ true) where
  mget-refused :
      (ks : List String) (w : World E)
      → validate_keys ks ≡ none
      → Kv.mget c ks w ≡ (some (err client_closed), w)
  mget-refused ks w valid = (kv-closed c h).mget ks w ∙ rw valid refl

  del-refused :
      (ks : List String) (w : World E)
      → validate_keys ks ≡ none
      → Kv.del c ks w ≡ (some (err client_closed), w)
  del-refused ks w valid = (kv-closed c h).del ks w ∙ rw valid refl

  pipeline-refused :
      (fn : Option (Builder → Builder)) (w : World E)
      → pipeline c fn w ≡ (some (err client_closed), w)
  unfolding pipeline
  pipeline-refused fn w =
      send-closed c h "PIPELINE" "pipeline" [] (λ l. results l) (c.backend.pipeline (built fn))
        as_results w

  first_of :
      (keys : List String) (size : ℤ)
      → validate_keys keys ≡ none
      → (b : List String) × (bs : List (List String)) × (chunk keys (batch_size size) ≡ b ∷ bs)
        × (validate_keys b ≡ none)
  first_of keys size valid =
      let (whole, sized) = chunk-batches keys (batch_size size) (batch_size_pos size) in
      first_batch (chunk keys (batch_size size)) keys (batch_size size) whole sized valid

  get-closed : (keys : List String) (size : ℤ) → Refuses (validate_keys keys) (Bulk.get c keys size)
  unfolding Bulk.get
  get-closed keys size w = elim (Option-cases (validate_keys keys)) [
    | inl valid ↦
        let (b, bs, cut, good) = first_of keys size valid in
        unfold checked get_batches next_get in rw (valid, cut, mget-refused b w good) refl
    | inr (e, bad) ↦ unfold checked in rw bad refl
  ]

  delete-closed :
      (keys : List String) (size : ℤ) → RefusesTotal (validate_keys keys) (Bulk.delete c keys size)
  unfolding Bulk.delete
  delete-closed keys size w = elim (Option-cases (validate_keys keys)) [
    | inl valid ↦
        let (b, bs, cut, good) = first_of keys size valid in
        unfold checked_total delete_batches next_total in rw (valid, cut, del-refused b w good) refl
    | inr (e, bad) ↦ unfold checked_total in rw bad refl
  ]

  expire-closed :
      (keys : List String) (ttl : Duration) (size : ℤ)
      → RefusesTotal (validate_keys keys) (Bulk.expire c keys ttl size)
  unfolding Bulk.expire
  expire-closed keys ttl size w = elim (Option-cases (validate_keys keys)) [
    | inl valid ↦
        let (b, bs, cut, good) = first_of keys size valid in
        unfold checked_total expire_batches next_total in
        rw (valid, cut, pipeline-refused (some (λ l. build_expires b ttl l)) w) refl
    | inr (e, bad) ↦ unfold checked_total in rw bad refl
  ]

-- The methods in batches.
pub record BulkClosed {E : Type 0} (c : Session E) : Type 0 where
  pub get : (keys : List String) (size : ℤ) → Refuses (validate_keys keys) (Bulk.get c keys size)
  pub delete :
      (keys : List String) (size : ℤ) → RefusesTotal (validate_keys keys) (Bulk.delete c keys size)
  pub expire :
      (keys : List String) (ttl : Duration) (size : ℤ)
      → RefusesTotal (validate_keys keys) (Bulk.expire c keys ttl size)

pub bulk-closed : {E : Type 0} (c : Session E) → c.closed ≡ true → BulkClosed c
bulk-closed c h = record {
  get = get-closed c h;
  delete = delete-closed c h;
  expire = expire-closed c h;
}
