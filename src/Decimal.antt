-- ===== src/Decimal.antt =====
-- What the mock backend takes of Go's fmt: `%d` in Sprintf and Sscanf, over the `int64` values.
pub mod RoundTrip
use Prim.Native.Char.{Char}
use Prim.Native.String.{String}
use resilix.Prelude.{
  ℕ, zero, suc, ◌+◌, ◌-◌, ◌*◌, ◌/◌, ◌%◌, Bool, true, false, ◌&&◌, ◌||◌, ◌≡◌, refl, Option, none,
  some, List, [], ◌∷◌, ltb, leb, ◌==◌, if◌then◌else◌,
}
use resilix.Prelude.Int.{ℤ, pos, negsuc, max_int64}
use resilix.Errors.{codes}

-- The digit of a number below ten.
unfoldable pub digit : ℕ → Char
digit zero = "0"
digit (suc zero) = "1"
digit (suc (suc zero)) = "2"
digit (suc (suc (suc zero))) = "3"
digit (suc (suc (suc (suc zero)))) = "4"
digit (suc (suc (suc (suc (suc zero))))) = "5"
digit (suc (suc (suc (suc (suc (suc zero)))))) = "6"
digit (suc (suc (suc (suc (suc (suc (suc zero))))))) = "7"
digit (suc (suc (suc (suc (suc (suc (suc (suc zero)))))))) = "8"
digit _ = "9"

-- The digits of `n` in front of `out`. The first argument is fuel: `n` rounds and one are enough.
unfoldable pub emit : ℕ → ℕ → String → String
emit zero n out = out
emit (suc f) n out =
    let rest = emit f (n / 10) (String.◌∷◌ (digit (n % 10)) out) in if n == 0 then out else rest

unfoldable pub format_ℕ : ℕ → String
unfolding emit digit
format_ℕ n = if n == 0 then "0" else emit (suc n) n ""

-- `fmt.Sprintf("%d", n)`
unfoldable pub format : ℤ → String
unfolding format_ℕ
format (pos n) = format_ℕ n
format (negsuc n) = String.◌∷◌ "-" (format_ℕ (suc n))

unfoldable pub is_digit : ℕ → Bool
is_digit c = leb b'0' c && leb c b'9'

-- The value of the digits in front, behind those that make `acc`.
unfoldable pub read : ℕ → List ℕ → ℕ
unfolding is_digit
read acc [] = acc
read acc (c ∷ cs) = let more = read (acc * 10 + (c - b'0')) cs in if is_digit c then more else acc

unfoldable pub starts_with_digit : List ℕ → Bool
unfolding is_digit
starts_with_digit [] = false
starts_with_digit (c ∷ cs) = is_digit c

-- `none` is an error: no digit, or a number that is no `int64`.
unfoldable pub scan_pos : List ℕ → Option ℤ
unfolding starts_with_digit read
scan_pos cs =
    if starts_with_digit cs
    then (let n = read 0 cs in if leb n max_int64 then some (pos n) else none)
    else none

unfoldable pub scan_neg : List ℕ → Option ℤ
unfolding starts_with_digit read
scan_neg cs =
    if starts_with_digit cs
    then (let n = read 0 cs in
        if n == 0
        then some (pos 0)
        else if leb (n - 1) max_int64
        then some (negsuc (n - 1))
        else none)
    else none

-- Behind the white space: a sign, if there is one, and the digits.
unfoldable pub scan_signed : List ℕ → Option ℤ
unfolding scan_pos scan_neg
scan_signed [] = none
scan_signed (c ∷ cs) =
    if c == b'-' then scan_neg cs else if c == b'+' then scan_pos cs else scan_pos (c ∷ cs)

-- The white space that Sscanf skips before a number; a newline ends the scan by an error.
unfoldable pub is_space : ℕ → Bool
is_space c =
    c == 32
    || c == 9
    || c == 11
    || c == 12
    || c == 13
    || c == 0x85
    || c == 0xA0
    || c == 0x1680
    || (leb 0x2000 c && leb c 0x200A)
    || c == 0x2028
    || c == 0x2029
    || c == 0x202F
    || c == 0x205F
    || c == 0x3000

unfoldable pub scan_codes : List ℕ → Option ℤ
unfolding scan_signed is_space
scan_codes [] = none
scan_codes (c ∷ cs) =
    let skipped = scan_codes cs in if is_space c then skipped else scan_signed (c ∷ cs)

-- `fmt.Sscanf(s, "%d", &n)`
unfoldable pub scan : String → Option ℤ
unfolding scan_codes
scan s = scan_codes (codes s)
