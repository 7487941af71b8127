-- ===== src/Mock/Lists.antt =====
-- Lists: LPush to LLen, and LMPop, of sdk/go/resilixtest/mock.go.
pub mod Range
pub mod Deque
use resilix.Prelude.{
  ℕ, suc, ◌+◌, ◌-◌, String, Bool, true, false, ◌||◌, ◌==◌, Option, none, some, List, [], ◌∷◌, ◌++◌,
  map, length, take, drop, get_elem?, str_eq, if◌then◌else◌,
}
use resilix.Prelude.Int.{ℤ, pos, negsuc, pos_part, ltb_ℤ, leb_ℤ, ◌+ℤ◌, ◌-ℤ◌}
use resilix.Errors.{Result, ok, err, key_not_found}
use resilix.Dict
use resilix.Mock.{Mock, Value, sprint, guarded, check_error}

-- `m.lists[key]`: nil for a missing key.
abbrev pub list_at : Mock → String → List String
list_at m key = Dict.get_or m.lists key []

-- `m.lists[key] = l`
abbrev pub put_list : String → List String → Mock → Mock
put_list key l m = record m { lists = Dict.put m.lists key l }

unfoldable pub lpush : String → List Value → Mock → Result ℕ × Mock
lpush key values =
    guarded "LPush"
      λ m. let l = map sprint values ++ list_at m key in (ok (length l), put_list key l m)

unfoldable pub rpush : String → List Value → Mock → Result ℕ × Mock
rpush key values =
    guarded "RPush"
      λ m. let l = list_at m key ++ map sprint values in (ok (length l), put_list key l m)

unfoldable pub pop_head : String → List String → Mock → Result String × Mock
pop_head key [] m = (err key_not_found, m)
pop_head key (x ∷ l) m = (ok x, put_list key l m)

unfoldable pub lpop : String → Mock → Result String × Mock
unfolding pop_head
lpop key = guarded "LPop" λ m. pop_head key (list_at m key) m

-- `lst[len(lst)-1]` and `lst[:len(lst)-1]`.
unfoldable pub pop_last : String → List String → Mock → Result String × Mock
pop_last key l m = elim (get_elem? l (length l - 1)) [
  | none ↦ (err key_not_found, m)
  | some x ↦ (ok x, put_list key (take (length l - 1) l) m)
]

unfoldable pub rpop : String → Mock → Result String × Mock
unfolding pop_last
rpop key = guarded "RPop" λ m. pop_last key (list_at m key) m

-- The arithmetic of LRange and of sliceZSet: an index below 0 counts from the end.
unfoldable pub from_end : ℕ → ℤ → ℤ
from_end n i = if ltb_ℤ i (pos 0) then pos n +ℤ i else i

unfoldable pub slice_range {ℓ} : {A : Type ℓ} → ℤ → ℤ → List A → List A
unfolding from_end
slice_range start stop l =
    let n = length l in
    let a = from_end n start in
    let b = from_end n stop in
    let a' = if ltb_ℤ a (pos 0) then pos 0 else a in
    let b' = if leb_ℤ (pos n) b then pos n -ℤ pos 1 else b in
    if ltb_ℤ b' a' || (n == 0)
    then []
    else take (pos_part (b' -ℤ a' +ℤ pos 1)) (drop (pos_part a') l)

unfoldable pub lrange : String → ℤ → ℤ → Mock → Result (List String) × Mock
unfolding slice_range
lrange key start stop = guarded "LRange" λ m. (ok (slice_range start stop (list_at m key)), m)

unfoldable pub llen : String → Mock → Result ℕ × Mock
llen key = guarded "LLen" λ m. (ok (length (list_at m key)), m)

-- The elements that a pop of `count` takes from the head or from the end, and those that stay.
-- `none` is the run-time panic of a slice with a negative bound.
unfoldable pub split_pop {ℓ} : {A : Type ℓ} → ℤ → Bool → List A → Option (List A × List A)
split_pop (negsuc c) head l = none
split_pop (pos c) head l =
    let n = if leb_ℤ (pos c) (pos (length l)) then c else length l in
    if head then some (take n l, drop n l) else some (drop (length l - n) l, take (length l - n) l)

-- The loop over the keys: the first whose list is not empty. `none` is the panic.
unfoldable pub lmpop_each :
    ℤ → Bool → List String → Mock → Option (Result (String × List String) × Mock)
unfolding split_pop
lmpop_each count head [] m = some (ok ("", []), m)
lmpop_each count head (key ∷ keys) m =
    let rest = lmpop_each count head keys m in
    elim (list_at m key) [
      | [] ↦ rest
      | x ∷ l ↦ elim (split_pop count head (x ∷ l)) [
        | none ↦ none
        | some (popped, left) ↦ some (ok (key, popped), put_list key left m)
      ]
    ]

unfoldable pub lmpop :
    ℤ → String → List String → Mock → Option (Result (String × List String) × Mock)
unfolding lmpop_each
lmpop count direction keys m =
    let (e, m') = check_error "LMPop" m in
    elim e [ some x ↦ some (err x, m') | none ↦ lmpop_each count (str_eq direction "LEFT") keys m' ]
