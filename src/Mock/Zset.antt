-- ===== src/Mock/Zset.antt =====
-- Sorted sets: ZAdd to ZScore, ZMPop and their helpers, of sdk/go/resilixtest/mock.go. Go leaves
-- the order of equal scores open; here they keep their order.
pub mod Scores
use resilix.Prelude.{
  ℕ, suc, ◌+◌, String, Bool, true, false, Option, none, some, List, [], ◌∷◌, ◌++◌, str_eq,
  if◌then◌else◌,
}
use mathlib.Core.List.{reverse}
use resilix.Prelude.Int.{ℤ, ltb_ℤ, leb_ℤ}
use resilix.Errors.{Result, ok, err, key_not_found}
use resilix.Dict
use resilix.Mock.{Mock, ZMember, guarded, check_error}
use resilix.Mock.Kv.Views.{elem}
use resilix.Mock.Lists.{slice_range, split_pop}

abbrev pub zset_at : Mock → String → List ZMember
zset_at m key = Dict.get_or m.zsets key []

abbrev pub put_zset : String → List ZMember → Mock → Mock
put_zset key l m = record m { zsets = Dict.put m.zsets key l }

-- `sortZSet`
unfoldable pub insert_member : ZMember → List ZMember → List ZMember
insert_member x [] = x ∷ []
insert_member x (y ∷ l) = if leb_ℤ x.score y.score then x ∷ (y ∷ l) else y ∷ insert_member x l

unfoldable pub sort_zset : List ZMember → List ZMember
unfolding insert_member
sort_zset [] = []
sort_zset (x ∷ l) = insert_member x (sort_zset l)

unfoldable pub add_zset : String → List ZMember → Mock → Mock
unfolding sort_zset
add_zset key members m = put_zset key (sort_zset (zset_at m key ++ members)) m

-- The first entry of the member gets the score, else a new one goes to the end; and how many are
-- new.
unfoldable pub zadd_one : ZMember → List ZMember → ℕ × List ZMember
zadd_one x [] = (1, x ∷ [])
zadd_one x (y ∷ l) =
    let (added, l') = zadd_one x l in
    if str_eq y.member x.member then (0, record y { score = x.score } ∷ l) else (added, y ∷ l')

unfoldable pub zadd_each : List ZMember → List ZMember → ℕ × List ZMember
unfolding zadd_one
zadd_each [] l = (0, l)
zadd_each (x ∷ xs) l =
    let (n, l1) = zadd_one x l in let (rest, l2) = zadd_each xs l1 in (n + rest, l2)

unfoldable pub zadd : String → List ZMember → Mock → Result ℕ × Mock
unfolding zadd_each sort_zset
zadd key members = guarded "ZAdd" λ m.
    let (added, l) = zadd_each members (zset_at m key) in (ok added, put_zset key (sort_zset l) m)

-- `sliceZSet`
unfoldable pub slice_zset : List ZMember → ℤ → ℤ → Bool → List ZMember
unfolding slice_range
slice_zset members start stop backwards =
    slice_range start stop (if backwards then reverse members else members)

unfoldable pub zrange : String → ℤ → ℤ → Mock → Result (List ZMember) × Mock
unfolding slice_zset
zrange key start stop = guarded "ZRange" λ m. (ok (slice_zset (zset_at m key) start stop false), m)

unfoldable pub zrev_range : String → ℤ → ℤ → Mock → Result (List ZMember) × Mock
unfolding slice_zset
zrev_range key start stop =
    guarded "ZRevRange" λ m. (ok (slice_zset (zset_at m key) start stop true), m)

unfoldable pub zrem_from : List String → List ZMember → ℕ × List ZMember
zrem_from members [] = (0, [])
zrem_from members (y ∷ l) =
    let (removed, l') = zrem_from members l in
    if elem y.member members then (suc removed, l') else (removed, y ∷ l')

unfoldable pub zrem : String → List String → Mock → Result ℕ × Mock
unfolding zrem_from
zrem key members =
    guarded "ZRem"
      λ m. let (removed, l) = zrem_from members (zset_at m key) in (ok removed, put_zset key l m)

unfoldable pub score_of : String → List ZMember → Option ℤ
score_of x [] = none
score_of x (y ∷ l) = if str_eq y.member x then some y.score else score_of x l

unfoldable pub zscore : String → String → Mock → Result ℤ × Mock
unfolding score_of
zscore key member =
    guarded "ZScore"
      λ m. (elim (score_of member (zset_at m key)) [ none ↦ err key_not_found | some s ↦ ok s ], m)

unfoldable pub zmpop_each :
    ℤ → Bool → List String → Mock → Option (Result (String × List ZMember) × Mock)
unfolding split_pop
zmpop_each count head [] m = some (ok ("", []), m)
zmpop_each count head (key ∷ keys) m =
    let rest = zmpop_each count head keys m in
    elim (zset_at m key) [
      | [] ↦ rest
      | x ∷ l ↦ elim (split_pop count head (x ∷ l)) [
        | none ↦ none
        | some (popped, left) ↦ some (ok (key, popped), put_zset key left m)
      ]
    ]

-- `none` is the panic of a negative count.
unfoldable pub zmpop :
    ℤ → String → List String → Mock → Option (Result (String × List ZMember) × Mock)
unfolding zmpop_each
zmpop count order keys m =
    let (e, m') = check_error "ZMPop" m in
    elim e [ some x ↦ some (err x, m') | none ↦ zmpop_each count (str_eq order "MIN") keys m' ]
