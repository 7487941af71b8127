-- ===== src/Keybuilder/Parts.antt =====
-- How the keys of a builder of sdk/go/keybuilder/builder.go, of its prefix and of its children fit.
use Prim.Native.String.{◌++◌ as str_append}
use text.Mathlib.TextLemmas.{append_assoc as str_append_assoc}
use resilix.Prelude.{String, ◌≡◌, refl, sym, ap, ◌∙◌, List, [], ◌∷◌, ◌++◌, map, append_assoc}
use resilix.Keybuilder.{Builder, Segment, join, prefix_text, segment_string, build, sub}

join-append :
    (sep a b : String) (l m : List String)
    → join sep ((a ∷ l) ++ (b ∷ m))
      ≡ str_append (join sep (a ∷ l)) (str_append sep (join sep (b ∷ m)))
unfolding join
join-append sep a b [] m = refl
join-append sep a b (c ∷ l) m =
    ap (λ s. str_append a (str_append sep s)) (join-append sep c b l m)
    ∙ sym (
        str_append_assoc a (str_append sep (join sep (c ∷ l))) (str_append sep (join sep (b ∷ m)))
        ∙ ap (str_append a)
            (str_append_assoc sep (join sep (c ∷ l)) (str_append sep (join sep (b ∷ m)))))

map-append : {A B : Type 0} (f : A → B) (xs ys : List A) → map f (xs ++ ys) ≡ map f xs ++ map f ys
map-append f [] ys = refl
map-append f (x ∷ xs) ys = ap (λ l. f x ∷ l) (map-append f xs ys)

module _ {X : Type 0} (sprint : X → String) where
  build-sub :
      (b : Builder) (xs ys : List (Segment X))
      → build sprint (sub sprint b xs) ys ≡ build sprint b (xs ++ ys)
  unfolding build sub
  build-sub b xs ys = ap (join b.sep) (
      append_assoc b.prefix (map (segment_string sprint) xs) (map (segment_string sprint) ys)
      ∙ ap (λ l. b.prefix ++ l) (sym (map-append (segment_string sprint) xs ys)))

  build-prefix :
      (n : String) (ns : List String) (sep : String) (y : Segment X) (ys : List (Segment X))
      → build sprint (record { prefix = n ∷ ns; sep = sep }) (y ∷ ys)
        ≡ str_append
            (prefix_text (record { prefix = n ∷ ns; sep = sep }))
            (str_append sep (build sprint (record { prefix = []; sep = sep }) (y ∷ ys)))
  unfolding build prefix_text
  build-prefix n ns sep y ys =
      join-append sep n (segment_string sprint y) ns (map (segment_string sprint) ys)

  -- A builder with a namespace: its child builds the keys that it builds itself with the child's
  -- segments in front, and each key of the child that has a segment is the child's prefix, the
  -- separator, and the key that the segments make without a namespace.
  pub sub-keys :
      (n : String) (ns : List String) (sep : String) (xs ys : List (Segment X)) (y : Segment X)
      → let b : Builder = record { prefix = n ∷ ns; sep = sep } in
        (build sprint (sub sprint b xs) (y ∷ ys) ≡ build sprint b (xs ++ (y ∷ ys)))
        × (build sprint (sub sprint b xs) (y ∷ ys)
            ≡ str_append
                (prefix_text (sub sprint b xs))
                (str_append sep (build sprint (record { prefix = []; sep = sep }) (y ∷ ys))))
  unfolding sub
  sub-keys n ns sep xs ys y = (
    build-sub (record { prefix = n ∷ ns; sep = sep }) xs (y ∷ ys),
    build-prefix n (ns ++ map (segment_string sprint) xs) sep y ys,
  )
