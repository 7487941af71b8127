-- ===== src/Services/Bulk.antt =====
-- Calls in batches: bulkService and chunk of sdk/go/services.go.
use resilix.Prelude.{
  ℕ, zero, suc, ◌+◌, ◌-◌, String, ltb, Option, none, some, List, [], ◌∷◌, length, take, drop,
  if◌then◌else◌,
}
use resilix.Prelude.Int.{ℤ, pos, Duration, pos_part, leb_ℤ, add64, inc64}
use resilix.Errors.{Error, ok, err}
use resilix.Dict
use resilix.Dict.{Dict}
use resilix.Mock.Pipeline.{CommandResult}
use resilix.Retry.{World}
use resilix.Validation.{validate_keys}
use resilix.Services.{Session, Outcome, checked}
use resilix.Services.Kv
use resilix.Services.Pipeline.{Builder, build_expire, pipeline}

-- `values[start:end]`, for indices that are in range.
unfoldable pub slice : {A : Type 0} → List A → ℕ → ℕ → List A
slice l start end = take (end - start) (drop start l)

-- The loop of `chunk` from an index on.
unfoldable pub chunk_from : {A : Type 0} → ℕ → List A → ℕ → ℕ → List (List A)
unfolding slice
chunk_from zero l size start = []
chunk_from (suc fuel) l size start =
    let rest = chunk_from fuel l size (start + size) in
    let end = if ltb (length l) (start + size) then length l else start + size in
    if ltb start (length l) then slice l start end ∷ rest else []

-- The batch size is positive, so each round moves on: one for each value is enough.
unfoldable pub chunk : {A : Type 0} → List A → ℕ → List (List A)
unfolding chunk_from
chunk l size = chunk_from (length l) l size 0

unfoldable pub batch_size : ℤ → ℕ
batch_size n = if leb_ℤ n (pos 0) then 128 else pos_part n

-- `result[key] = values[index]` for the keys of a batch; `none` is an index out of range.
unfoldable pub fill :
    List String → List (Option String) → Dict (Option String) → Option (Dict (Option String))
fill [] values result = some result
fill (k ∷ ks) [] result = none
fill (k ∷ ks) (v ∷ vs) result = fill ks vs (Dict.put result k v)

unfoldable pub count_done : List CommandResult → ℤ → ℤ
count_done [] total = total
count_done (r ∷ rs) total = count_done rs (elim r.result [ ok x ↦ inc64 total | err e ↦ total ])

unfoldable pub build_expires : List String → Duration → Builder → Builder
unfolding build_expire
build_expires [] ttl b = b
build_expires (k ∷ ks) ttl b = build_expires ks ttl (build_expire k ttl b)

-- The total so far and the error that ended the loop, if one did: the methods return both.
pub record Tally : Type 0 where
  pub total : ℤ
  pub error : Option Error

module _ {E : Type 0} (c : Session E) where
  -- From the outcome of one batch on to the next, or out of the loop.
  unfoldable pub next_get :
      List String
      → Dict (Option String)
      → (Dict (Option String) → World E → Outcome E (Dict (Option String)))
      → Outcome E (List (Option String))
      → Outcome E (Dict (Option String))
  unfolding fill
  next_get batch result next (none, w) = (none, w)
  next_get batch result next (some (err e), w) = (some (err e), w)
  next_get batch result next (some (ok values), w) = elim (fill batch values result) [
    | none ↦ (none, w)
    | some d ↦ next d w
  ]

  unfoldable pub get_batches :
      List (List String) → Dict (Option String) → World E → Outcome E (Dict (Option String))
  unfolding next_get
  get_batches [] result w = (some (ok result), w)
  get_batches (batch ∷ batches) result w =
      next_get batch result (λ d w'. get_batches batches d w') (Kv.mget c batch w)

  unfoldable pub get : List String → ℤ → World E → Outcome E (Dict (Option String))
  unfolding get_batches batch_size
  get keys size =
      checked c (validate_keys keys) λ w. get_batches (chunk keys (batch_size size)) Dict.empty w

  -- The total so far goes with an error.
  unfoldable pub next_total :
      {A : Type 0}
      → ℤ
      → (A → ℤ → ℤ)
      → (ℤ → World E → Option Tally × World E)
      → Outcome E A
      → Option Tally × World E
  next_total total add next (none, w) = (none, w)
  next_total total add next (some (err e), w) = (some (record { total = total; error = some e }), w)
  next_total total add next (some (ok a), w) = next (add a total) w

  unfoldable pub delete_batches : List (List String) → ℤ → World E → Option Tally × World E
  unfolding next_total
  delete_batches [] total w = (some (record { total = total; error = none }), w)
  delete_batches (batch ∷ batches) total w =
      next_total total (λ n t. add64 t n) (λ t w'. delete_batches batches t w') (Kv.del c batch w)

  unfoldable pub checked_total :
      Option Error → (World E → Option Tally × World E) → World E → Option Tally × World E
  checked_total (some e) method w = (some (record { total = pos 0; error = some e }), w)
  checked_total none method w = method w

  unfoldable pub delete : List String → ℤ → World E → Option Tally × World E
  unfolding delete_batches batch_size checked_total
  delete keys size =
      checked_total (validate_keys keys)
        λ w. delete_batches (chunk keys (batch_size size)) (pos 0) w

  unfoldable pub expire_batches :
      List (List String) → Duration → ℤ → World E → Option Tally × World E
  unfolding next_total count_done build_expires
  expire_batches [] ttl total w = (some (record { total = total; error = none }), w)
  expire_batches (batch ∷ batches) ttl total w =
      next_total total count_done (λ t w'. expire_batches batches ttl t w')
        (pipeline c (some (λ b. build_expires batch ttl b)) w)

  unfoldable pub expire : List String → Duration → ℤ → World E → Option Tally × World E
  unfolding expire_batches batch_size checked_total
  expire keys ttl size =
      checked_total (validate_keys keys)
        λ w. expire_batches (chunk keys (batch_size size)) ttl (pos 0) w
