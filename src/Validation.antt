-- ===== src/Validation.antt =====
-- The checks of arguments: sdk/go/validation.go.
use Prim.Native.String.{◌++◌ as str_append}
use resilix.Prelude.{
  ℕ, String, Bool, true, false, ◌&&◌, ◌||◌, ◌==◌, leb, Option, none, some, List, [], ◌∷◌,
  if◌then◌else◌,
}
use resilix.Errors.{Error, validation, Text, codes}
use resilix.Dict.{Dict}

-- `unicode.IsSpace`
unfoldable pub is_space : ℕ → Bool
is_space c =
    leb 9 c && leb c 13
    || c == 0x20
    || c == 0x85
    || c == 0xA0
    || c == 0x1680
    || leb 0x2000 c && leb c 0x200A
    || c == 0x2028
    || c == 0x2029
    || c == 0x202F
    || c == 0x205F
    || c == 0x3000

unfoldable pub all_space : Text → Bool
unfolding is_space
all_space [] = true
all_space (c ∷ t) = is_space c && all_space t

-- `strings.TrimSpace(s) == ""`
unfoldable pub blank : String → Bool
unfolding all_space
blank s = all_space (codes s)

unfoldable pub validate_key : String → Option Error
unfolding blank
validate_key key = if blank key then some (validation "key" "key cannot be empty") else none

-- `err.Error()` of a ValidationError.
unfoldable pub validation_text : String → String → String
validation_text field text =
    str_append "resilix: validation failed for " (str_append field (str_append ": " text))

-- `validateKey` on an argument of another name, whose error is given that name.
unfoldable pub validate_key_as : String → String → Option Error
unfolding blank validation_text
validate_key_as field key =
    if blank key
    then some (validation field (validation_text "key" "key cannot be empty"))
    else none

unfoldable pub first_error : Option Error → Option Error → Option Error
first_error none e = e
first_error (some e) f = some e

-- The loop of validateKeys.
unfoldable pub each_valid : List String → Option Error
unfolding validate_key first_error
each_valid [] = none
each_valid (k ∷ ks) = first_error (validate_key k) (each_valid ks)

unfoldable pub validate_keys : List String → Option Error
unfolding each_valid
validate_keys [] = some (validation "keys" "at least one key is required")
validate_keys (k ∷ ks) = each_valid (k ∷ ks)

-- The loop of validateStringSlice.
unfoldable pub no_blanks : String → List String → Option Error
unfolding blank
no_blanks name [] = none
no_blanks name (v ∷ vs) =
    let rest = no_blanks name vs in
    if blank v then some (validation name "values cannot contain blanks") else rest

unfoldable pub validate_string_slice : String → List String → Option Error
unfolding no_blanks
validate_string_slice name [] = some (validation name "at least one value is required")
validate_string_slice name (v ∷ vs) = no_blanks name (v ∷ vs)

unfoldable pub is_nil_map {ℓ} : {V : Type ℓ} → List (String × V) → Bool
is_nil_map [] = true
is_nil_map (e ∷ l) = false

unfoldable pub validate_map {ℓ} : {V : Type ℓ} → String → Dict V → Option Error
unfolding is_nil_map
validate_map name values =
    if is_nil_map values.entries then some (validation name "map cannot be empty") else none
