-- ===== src/Prelude/Strings.antt =====
-- `sort.Strings`: by the order of the bytes.
use Prim.Native.String.{String, compare}
use text.Mathlib.Text.{is_le}
use resilix.Prelude.Tests.{if◌then◌else◌}
use mathlib.Core.List.{List, [], ◌∷◌}

unfoldable pub insert_string : String → List String → List String
insert_string s [] = s ∷ []
insert_string s (t ∷ l) = if is_le (compare s t) then s ∷ (t ∷ l) else t ∷ insert_string s l

unfoldable pub sort_strings : List String → List String
unfolding insert_string
sort_strings [] = []
sort_strings (s ∷ l) = insert_string s (sort_strings l)
