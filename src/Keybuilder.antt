-- ===== src/Keybuilder.antt =====
-- Keys from segments: sdk/go/keybuilder/builder.go. A value that is neither a string nor bytes is of
-- a type that is an argument, with the text that `fmt.Sprintf("%v", …)` gives it.
pub mod Parts
use Prim.Native.String.{◌++◌ as str_append}
use resilix.Prelude.{String, List, [], ◌∷◌, ◌++◌, map}

pub record Builder : Type 0 where
  pub prefix : List String
  pub sep : String

-- A segment; bytes are given as the string of them.
pub data Segment (X : Type 0) : Type 0 where
  text : String → Segment X
  bytes : String → Segment X
  value : X → Segment X

unfoldable pub new : List String → Builder
new namespace = record { prefix = namespace; sep = ":" }

unfoldable pub with_separator : String → Builder → Builder
with_separator sep b = record { prefix = b.prefix; sep = sep }

-- `strings.Join`
unfoldable pub join : String → List String → String
join sep [] = ""
join sep (s ∷ []) = s
join sep (s ∷ t ∷ l) = str_append s (str_append sep (join sep (t ∷ l)))

unfoldable pub prefix_text : Builder → String
unfolding join
prefix_text b = join b.sep b.prefix

module _ {X : Type 0} (sprint : X → String) where
  unfoldable pub segment_string : Segment X → String
  segment_string (text s) = s
  segment_string (bytes s) = s
  segment_string (value x) = sprint x

  unfoldable pub build : Builder → List (Segment X) → String
  unfolding join segment_string
  build b segments = join b.sep (b.prefix ++ map segment_string segments)

  unfoldable pub pattern : Builder → List (Segment X) → String
  unfolding build
  pattern b segments = build b segments

  unfoldable pub sub : Builder → List (Segment X) → Builder
  unfolding segment_string
  sub b segments = record { prefix = b.prefix ++ map segment_string segments; sep = b.sep }
