-- ===== src/Services/Batch.antt =====
-- The batches of `chunk` and the tally over them, in sdk/go/services.go.
use resilix.Prelude.{
  ℕ, zero, suc, ◌+◌, ◌-◌, ◌≤◌, ◌<◌, ◌≡◌, refl, sym, ap, ◌∙◌, List, [], ◌∷◌, ◌++◌, append-nil,
  length, drop, length-take, take-append-drop, take-length_le, arith,
}
use resilix.Services.Bulk.{slice, chunk_from, chunk}

module _ {A : Type 0} where
  -- The batches one behind the other.
  abbrev pub concat : List (List A) → List A
  concat [] = []
  concat (l ∷ ls) = l ++ concat ls

  -- No batch is empty, and none is larger than the size.
  abbrev pub Sized : ℕ → List (List A) → Type 0
  Sized size [] = Unit {0}
  Sized size (l ∷ ls) = (1 ≤ length l) × (length l ≤ size) × Sized size ls

  length-drop : (n : ℕ) (l : List A) → length (drop n l) ≡ length l - n
  length-drop zero l = omega arith
  length-drop (suc n) [] = omega arith
  length-drop (suc n) (x ∷ l) = omega (arith, length-drop n l)

  drop-nil : (n : ℕ) → drop {A = A} n [] ≡ []
  drop-nil zero = refl
  drop-nil (suc n) = refl

  drop_add : (m n : ℕ) (l : List A) → drop (m + n) l ≡ drop n (drop m l)
  drop_add zero n l = ap (λ k. drop k l) (omega arith)
  drop_add (suc m) n [] = drop-nil (suc m + n) ∙ sym (drop-nil n)
  drop_add (suc m) n (x ∷ l) =
      let shift : suc m + n ≡ suc (m + n) = omega arith in
      ap (λ k. drop k (x ∷ l)) shift ∙ drop_add m n l

  drop-length_le : (n : ℕ) (l : List A) → length l ≤ n → drop n l ≡ []
  drop-length_le zero [] h = refl
  drop-length_le zero (x ∷ l) h = absurd (omega arith)
  drop-length_le (suc n) [] h = refl
  drop-length_le (suc n) (x ∷ l) h = drop-length_le n l (omega arith)

  chunk_from-concat :
      (fuel : ℕ) (l : List A) (size start : ℕ)
      → 0 < size
      → length l ≤ fuel + start
      → concat (chunk_from fuel l size start) ≡ drop start l
  unfolding chunk_from slice
  chunk_from-concat zero l size start pos enough = sym (drop-length_le start l (omega arith))
  chunk_from-concat (suc fuel) l size start pos enough =
      let rest = chunk_from-concat fuel l size (start + size) pos (omega arith) in
      ground (
        arith,
        rest,
        drop_add start size l,
        take-append-drop size (drop start l),
        drop-length_le start l,
        drop-length_le (start + size) l,
        length-drop start l,
        take-length_le (length l - start) (drop start l),
        append-nil (drop start l),
      )

  chunk_from-Sized :
      (fuel : ℕ) (l : List A) (size start : ℕ)
      → 0 < size
      → Sized size (chunk_from fuel l size start)
  unfolding chunk_from slice
  chunk_from-Sized zero l size start pos = tt
  chunk_from-Sized (suc fuel) l size start pos =
      let rest = chunk_from-Sized fuel l size (start + size) pos in
      ground (
        arith,
        rest,
        length-drop start l,
        length-take (length l - start) (drop start l),
        length-take (start + size - start) (drop start l),
      )

  -- The batches of a list, one behind the other, are the list; none of them is empty, and none is
  -- larger than the batch size. (The batch size is positive, as its callers see to.)
  pub chunk-batches :
      (l : List A) (size : ℕ) → 0 < size → (concat (chunk l size) ≡ l) × Sized size (chunk l size)
  unfolding chunk
  chunk-batches l size pos = (
    chunk_from-concat (length l) l size 0 pos (omega arith),
    chunk_from-Sized (length l) l size 0 pos,
  )
