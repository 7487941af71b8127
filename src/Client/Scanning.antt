-- ===== src/Client/Scanning.antt =====
-- The callback of RedisClient.Scan in sdk/go/client.go, and the pages that its loop reads.
use resilix.Prelude.{
  ℕ, zero, suc, ◌+◌, ◌-◌, ◌≡◌, refl, ap, ap₂, ◌∙◌, String, true, ◌||◌, leb, ltb, Option, none, some,
  List, [], ◌∷◌, ◌++◌, arith, length, take, drop, take-append-drop, if◌then◌else◌, ◌<◌, ◌≤◌,
}
use resilix.Prelude.Int.{ℤ, pos, pos_part, leb_ℤ}
use resilix.Errors.{Error}
use resilix.Mock.Scan.{page}

module _ {W : Type 0} (fn : String → W → Option Error × W) where
  -- The callback on each of the keys, up to its first error.
  unfoldable pub each_key : List String → Option Error × W → Option Error × W
  each_key [] r = r
  each_key (k ∷ ks) (some e, w) = (some e, w)
  each_key (k ∷ ks) (none, w) = each_key ks (fn k w)

  pub each_key-append :
      (ks js : List String) (r : Option Error × W)
      → each_key (ks ++ js) r ≡ each_key js (each_key ks r)
  unfolding each_key
  each_key-append [] js r = refl
  each_key-append (k ∷ ks) [] (some e, w) = refl
  each_key-append (k ∷ ks) (j ∷ js) (some e, w) = refl
  each_key-append (k ∷ ks) js (none, w) = each_key-append ks js (fn k w)

  pub each_key-error :
      (ks : List String) (e : Error) (w : W) → each_key ks (some e, w) ≡ (some e, w)
  unfolding each_key
  each_key-error [] e w = refl
  each_key-error (k ∷ ks) e w = refl

-- Where a page ends.
abbrev pub end_of : List String → ℕ → ℤ → ℕ
end_of keys start count =
    if leb_ℤ count (pos 0) || ltb (length keys) (start + pos_part count)
    then length keys
    else start + pos_part count

pub end_of-bounds :
    (keys : List String) (start : ℕ) (count : ℤ)
    → start < length keys
    → (start < end_of keys start count) × (end_of keys start count ≤ length keys)
end_of-bounds keys start count h = ground arith

pub page-past :
    (keys : List String) (start : ℕ) (count : ℤ)
    → length keys ≤ start
    → page keys start count ≡ ([], 0)
unfolding page
page-past keys start count h =
    let past : leb (length keys) start ≡ true = ground arith in rw past refl

pub page-full :
    (keys : List String) (start : ℕ) (count : ℤ)
    → start < length keys
    → page keys start count ≡ (
      take (end_of keys start count - start) (drop start keys),
      if ltb (end_of keys start count) (length keys) then end_of keys start count else 0,
    )
unfolding page
page-full keys start count h = ground (arith, h)

drop-nil : (n : ℕ) → drop {A = String} n [] ≡ []
drop-nil zero = refl
drop-nil (suc n) = refl

take-nil : (n : ℕ) → take {A = String} n [] ≡ []
take-nil zero = refl
take-nil (suc n) = refl

pub drop-length : (n : ℕ) (l : List String) → length l ≤ n → drop n l ≡ []
drop-length zero [] h = refl
drop-length zero (x ∷ l) h = absurd (omega arith)
drop-length (suc n) [] h = refl
drop-length (suc n) (x ∷ l) h = drop-length n l (omega arith)

-- A page and what lies behind it.
pub page_rest :
    (start k end : ℕ) (keys : List String)
    → start + k ≡ end
    → take k (drop start keys) ++ drop end keys ≡ drop start keys
page_rest zero k end keys h =
    ap (λ n. take k keys ++ drop n keys) (omega arith) ∙ take-append-drop k keys
page_rest (suc start) k end [] h = ap₂ (λ a b. a ++ b) (take-nil k) (drop-nil end)
page_rest (suc start) k zero (x ∷ keys) h = absurd (omega arith)
page_rest (suc start) k (suc end) (x ∷ keys) h = page_rest start k end keys (omega arith)
