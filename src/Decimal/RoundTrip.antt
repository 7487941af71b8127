-- ===== src/Decimal/RoundTrip.antt =====
-- What Sscanf reads from what Sprintf wrote is the number that was written.
use Prim.Native.Char.{code}
use Prim.Native.String.{String}
use resilix.Prelude.{
  ℕ, zero, suc, ◌+◌, ◌-◌, ◌*◌, ◌/◌, ◌%◌, ◌<◌, true, false, ◌≡◌, refl, some, List, [], ◌∷◌, arith,
  ap, ◌∙◌, ◌==◌, Bool-cases, inl, inr,
}
use resilix.Prelude.Int.{ℤ, pos, negsuc, max_int64, ◌≤ℤ◌}
use resilix.Errors.{codes}
use resilix.Decimal.{
  digit, emit, format_ℕ, format, is_digit, read, starts_with_digit, scan_pos, scan_neg, scan_codes,
  is_space, scan,
}

code-digit : (n : ℕ) → n < 10 → code (digit n) ≡ n + b'0'
unfolding digit
code-digit zero h = refl
code-digit (suc zero) h = refl
code-digit (suc (suc zero)) h = refl
code-digit (suc (suc (suc zero))) h = refl
code-digit (suc (suc (suc (suc zero)))) h = refl
code-digit (suc (suc (suc (suc (suc zero))))) h = refl
code-digit (suc (suc (suc (suc (suc (suc zero)))))) h = refl
code-digit (suc (suc (suc (suc (suc (suc (suc zero))))))) h = refl
code-digit (suc (suc (suc (suc (suc (suc (suc (suc zero)))))))) h = refl
code-digit (suc (suc (suc (suc (suc (suc (suc (suc (suc zero))))))))) h = refl
code-digit (suc (suc (suc (suc (suc (suc (suc (suc (suc (suc n)))))))))) h = absurd (omega arith)

is_digit-digit : (n : ℕ) → n < 10 → is_digit (n + b'0') ≡ true
unfolding is_digit
is_digit-digit n h = ground arith

read-digit :
    (acc n : ℕ) (cs : List ℕ) → n < 10 → read acc (code (digit n) ∷ cs) ≡ read (acc * 10 + n) cs
unfolding read
read-digit acc n cs h =
    let same : n + b'0' - b'0' ≡ n = omega arith in
    rw (code-digit n h, is_digit-digit n h) (ap (λ (k : ℕ). read (acc * 10 + k) cs) same)

-- The digits that `emit` writes stand for `n`, in front of what follows.
read-emit : (f n : ℕ) (out : String) → n < f → read 0 (codes (emit f n out)) ≡ read n (codes out)
unfolding emit
read-emit zero n out h = elim h [ ]
read-emit (suc f) n out h = elim (Bool-cases (n == 0)) [
  | inl e ↦ rw e (ap (λ (k : ℕ). read k (codes out)) (ground arith))
  | inr e ↦ rw e (
      read-emit f (n / 10) (String.◌∷◌ (digit (n % 10)) out) (ground arith)
      ∙ read-digit (n / 10) (n % 10) (codes out) (omega arith)
      ∙ ap (λ (k : ℕ). read k (codes out)) (omega arith))
]

starts-digit : (n : ℕ) (cs : List ℕ) → n < 10 → starts_with_digit (code (digit n) ∷ cs) ≡ true
unfolding starts_with_digit
starts-digit n cs h = rw (code-digit n h) (is_digit-digit n h)

starts-emit :
    (f n : ℕ) (out : String)
    → starts_with_digit (codes out) ≡ true
    → starts_with_digit (codes (emit f n out)) ≡ true
unfolding emit
starts-emit zero n out h = h
starts-emit (suc f) n out h = elim (Bool-cases (n == 0)) [
  | inl e ↦ rw e h
  | inr e ↦ rw e (
      starts-emit f (n / 10) (String.◌∷◌ (digit (n % 10)) out)
        (starts-digit (n % 10) (codes out) (omega arith)))
]

-- A positive number is written with its last digit at the end.
format_ℕ_step :
    (n : ℕ) → (n == 0) ≡ false → format_ℕ n ≡ emit n (n / 10) (String.◌∷◌ (digit (n % 10)) "")
unfolding format_ℕ
format_ℕ_step n e = rw e

read-format_ℕ : (n : ℕ) → read 0 (codes (format_ℕ n)) ≡ n
read-format_ℕ n = elim (Bool-cases (n == 0)) [
  | inl e ↦ let z : n ≡ 0 = ground arith in rw z (unfold read is_digit format_ℕ in refl)
  | inr e ↦ rw (format_ℕ_step n e) (
      read-emit n (n / 10) (String.◌∷◌ (digit (n % 10)) "") (ground arith)
      ∙ read-digit (n / 10) (n % 10) [] (omega arith)
      ∙ (unfold read in omega arith))
]

starts-format_ℕ : (n : ℕ) → starts_with_digit (codes (format_ℕ n)) ≡ true
starts-format_ℕ n = elim (Bool-cases (n == 0)) [
  | inl e ↦
      let z : n ≡ 0 = ground arith in rw z (unfold starts_with_digit is_digit format_ℕ in refl)
  | inr e ↦ rw (format_ℕ_step n e) (
      starts-emit n (n / 10) (String.◌∷◌ (digit (n % 10)) "")
        (starts-digit (n % 10) [] (omega arith)))
]

-- Digits are neither a sign nor white space, so the scan comes to them at once.
digit-not_space : (c : ℕ) → is_digit c ≡ true → is_space c ≡ false
unfolding is_digit is_space
digit-not_space c h = ground arith

digit-not_sign : (c : ℕ) → is_digit c ≡ true → ((c == b'-') ≡ false) × ((c == b'+') ≡ false)
unfolding is_digit
digit-not_sign c h = ground arith

scan_codes-digits : (cs : List ℕ) → starts_with_digit cs ≡ true → scan_codes cs ≡ scan_pos cs
unfolding starts_with_digit
scan_codes-digits [] h = cc
scan_codes-digits (c ∷ cs) h =
    let (minus, plus) = digit-not_sign c h in
    unfold scan_codes in rw (digit-not_space c h, minus, plus)

-- Sscanf reads back what Sprintf wrote, for every `int64`.
pub scan-format : (z : ℤ) → z ≤ℤ pos max_int64 → negsuc max_int64 ≤ℤ z → scan (format z) ≡ some z
unfolding scan format
scan-format (pos n) h k =
    scan_codes-digits (codes (format_ℕ n)) (starts-format_ℕ n)
    ∙ (unfold scan_pos in rw (starts-format_ℕ n, read-format_ℕ n) (ground arith))
scan-format (negsuc n) h k =
    (unfold scan_codes is_space scan_neg in
      rw (starts-format_ℕ (suc n), read-format_ℕ (suc n)) (ground arith))
