-- ===== src/Mock/Lists/Range.antt =====
-- The arithmetic of LRange and sliceZSet against the slice that Redis documents.
use resilix.Prelude.{
  ℕ, zero, suc, ◌+◌, ◌-◌, ◌≤◌, ◌<◌, ◌≡◌, refl, Bool, true, false, ◌||◌, Bool-cases, inl, inr, List,
  [], ◌∷◌, arith, length, take, drop, min, length-take, take-length_le, sym, ◌∙◌, ap, leb,
  if◌then◌else◌,
}
use resilix.Prelude.Int.{ℤ, pos, negsuc, pos_part, ltb_ℤ, leb_ℤ, ◌+ℤ◌, ◌-ℤ◌}
use resilix.Mock.Lists.{from_end, slice_range}

-- Where the slice begins and where it stops in a list of `n` elements: index i of the first kind is
-- i, index -i is n - i; the stop is one behind the last element. Subtraction stops at 0.
unfoldable pub start_of : ℕ → ℤ → ℕ
start_of n (pos a) = a
start_of n (negsuc i) = n - suc i

unfoldable pub stop_of : ℕ → ℤ → ℕ
stop_of n (pos b) = suc b
stop_of n (negsuc j) = n - j

clip_start :
    (n : ℕ) (i : ℤ)
    → (if ltb_ℤ (from_end n i) (pos 0) then pos 0 else from_end n i) ≡ pos (start_of n i)
unfolding from_end start_of ◌+ℤ◌
clip_start n (pos i) = ground arith
clip_start n (negsuc i) = ground arith

abbrev clipped : ℕ → ℤ → ℤ
clipped n i = if leb_ℤ (pos n) (from_end n i) then pos n -ℤ pos 1 else from_end n i

-- The test for an empty slice, and the number of elements of one that is not.
empty_test : (n a : ℕ) (i : ℤ) → 0 < n → ltb_ℤ (clipped n i) (pos a) ≡ leb (min (stop_of n i) n) a
unfolding from_end stop_of ◌+ℤ◌ ◌-ℤ◌
empty_test n a (pos i) h = ground arith
empty_test n a (negsuc i) h = ground arith

clip_stop :
    (n a : ℕ) (i : ℤ)
    → 0 < n
    → a < min (stop_of n i) n
    → clipped n i ≡ pos (min (stop_of n i) n - 1)
unfolding from_end stop_of ◌+ℤ◌ ◌-ℤ◌
clip_stop n a (pos i) h k = ground arith
clip_stop n a (negsuc i) h k = ground arith

width : (w a : ℕ) → a < w → pos_part (pos (w - 1) -ℤ pos a +ℤ pos 1) ≡ w - a
unfolding ◌+ℤ◌ ◌-ℤ◌
width w a h = ground arith

span :
    (n a : ℕ) (i : ℤ)
    → 0 < n
    → a < min (stop_of n i) n
    → pos_part (clipped n i -ℤ pos a +ℤ pos 1) ≡ min (stop_of n i) n - a
span n a i h k = rw (clip_stop n a i h k) (width (min (stop_of n i) n) a k)

or_true : (b : Bool) → (b || true) ≡ true
or_true true = refl
or_true false = refl

module _ {ℓ} {A : Type ℓ} where
  take-nil : (n : ℕ) → take {A = A} n [] ≡ []
  take-nil zero = refl
  take-nil (suc n) = refl

  take-drop : (k a u : ℕ) (l : List A) → u ≡ a + k → take k (drop a l) ≡ drop a (take u l)
  take-drop k zero u l e = ap (λ (i : ℕ). take i l) (omega arith)
  take-drop k (suc a) u [] e = take-nil k ∙ sym (ap (λ r. drop (suc a) r) (take-nil u))
  take-drop k (suc a) zero (x ∷ l) e = absurd (omega arith)
  take-drop k (suc a) (suc u) (x ∷ l) e = take-drop k a u l (omega arith)

  drop-length_le : (a : ℕ) (l : List A) → length l ≤ a → drop a l ≡ []
  drop-length_le zero [] h = refl
  drop-length_le zero (x ∷ l) h = absurd (omega arith)
  drop-length_le (suc a) [] h = refl
  drop-length_le (suc a) (x ∷ l) h = drop-length_le a l (omega arith)

  take-min : (u : ℕ) (l : List A) → take (min u (length l)) l ≡ take u l
  take-min u l = elim (Bool-cases (leb u (length l))) [
    | inl e ↦ ap (λ (i : ℕ). take i l) (ground arith)
    | inr e ↦
        ap (λ (i : ℕ). take i l) (ground (arith, e))
        ∙ take-length_le (length l) l (omega arith)
        ∙ sym (take-length_le u l (ground (arith, e)))
  ]

  slice_clipped :
      (w a : ℕ) (test z : Bool) (k : ℕ) (l : List A)
      → test ≡ leb w a
      → z ≡ false
      → (a < w → k ≡ w - a)
      → (if test || z then [] else take k (drop a l)) ≡ drop a (take w l)
  slice_clipped w a test z k l t f c = elim (Bool-cases (leb w a)) [
    | inl e ↦ rw (t, f, e) (sym (drop-length_le a (take w l) (ground (arith, e, length-take w l))))
    | inr e ↦
        let lt : a < w = ground (arith, e) in
        rw (t, f, e, c lt) (take-drop (w - a) a w l (omega arith))
  ]

  -- The slice is the part of the list from the start to the stop, for every pair of indices, in
  -- range or not, and for every list.
  pub slice_range_lem :
      (start stop : ℤ) (l : List A)
      → slice_range start stop l
        ≡ drop (start_of (length l) start) (take (stop_of (length l) stop) l)
  unfolding slice_range
  slice_range_lem start stop [] =
      rw (take-nil (stop_of 0 stop), drop-length_le (start_of 0 start) [] (omega arith), or_true)
  slice_range_lem start stop (x ∷ l) =
      let n = length (x ∷ l) in
      rw (clip_start n start) (
        slice_clipped (min (stop_of n stop) n) (start_of n start) _ _ _ (x ∷ l)
          (empty_test n (start_of n start) stop (omega arith)) (ground arith)
          (span n (start_of n start) stop (omega arith))
        ∙ ap (λ r. drop (start_of n start) r) (take-min (stop_of n stop) (x ∷ l)))
