-- ===== src/Mock/Lists/Deque.antt =====
-- Pushes, pops and ranges of a list, seen through each other.
use resilix.Prelude.{
  ℕ, zero, suc, ◌-◌, String, ◌≡◌, refl, some, List, [], ◌∷◌, ◌++◌, arith, map, length, take, drop,
  get_elem?, eq_refl, append_assoc, sym, ◌∙◌, ap, length-append, take-length_le,
}
use resilix.Prelude.Int.{ℤ, pos, negsuc}
use resilix.Errors.{Result, ok, err, key_not_found}
use resilix.Dict
use resilix.Dict.{get_or_lem}
use resilix.Mock.{Mock, Value, sprint}
use resilix.Mock.Injected.{NoError, counted, guarded-body}
use resilix.Mock.Lists.{
  list_at, put_list, lpush, rpush, lpop, rpop, lrange, pop_head, pop_last, slice_range,
}
use resilix.Mock.Lists.Range.{start_of, stop_of, slice_range_lem}

list_at-put_list : (key : String) (l : List String) (m : Mock) → list_at (put_list key l m) key ≡ l
list_at-put_list key l m =
    get_or_lem (Dict.put m.lists key l) key [] ∙ rw (Dict.get-put m.lists key key l, eq_refl key)

lpush-state :
    (key : String) (vs : List Value) (m : Mock)
    → NoError "LPush" m
    → (lpush key vs m).1 ≡ put_list key (map sprint vs ++ list_at m key) (counted "LPush" m)
unfolding lpush
lpush-state key vs m h = rw (guarded-body "LPush" _ m h)

rpush-state :
    (key : String) (vs : List Value) (m : Mock)
    → NoError "RPush" m
    → (rpush key vs m).1 ≡ put_list key (list_at m key ++ map sprint vs) (counted "RPush" m)
unfolding rpush
rpush-state key vs m h = rw (guarded-body "RPush" _ m h)

lpop-cons :
    (key x : String) (l : List String) (m : Mock)
    → NoError "LPop" m
    → list_at m key ≡ x ∷ l
    → lpop key m ≡ (ok x, put_list key l (counted "LPop" m))
unfolding lpop
lpop-cons key x l m h e =
    guarded-body "LPop" (λ m. pop_head key (list_at m key) m) m h ∙ rw e (unfold pop_head in refl)

-- The results of `n` pops from the head, one behind the other.
pub pops : String → ℕ → Mock → List (Result String)
pops key zero m = []
pops key (suc n) m = (lpop key m).0 ∷ pops key n (lpop key m).1

pops_all :
    (key : String) (l : List String) (m : Mock)
    → NoError "LPop" m
    → list_at m key ≡ l
    → pops key (suc (length l)) m ≡ map (λ x. ok x) l ++ err key_not_found ∷ []
unfolding pops
pops_all key [] m h e =
    let empty : (lpop key m).0 ≡ err key_not_found =
      unfold lpop in
      rw (guarded-body "LPop" (λ m. pop_head key (list_at m key) m) m h, e)
        (unfold pop_head in refl) in
    rw empty
pops_all key (x ∷ l) m h e = rw (lpop-cons key x l m h e) (
    ap (λ r. ok x ∷ r)
      (pops_all key l (put_list key l (counted "LPop" m)) h
        (list_at-put_list key l (counted "LPop" m))))

-- A list is a queue: behind RPush, LPop returns what was there, then the pushed values in their
-- order, then ErrKeyNotFound. (No error is injected.)
pub pops-rpush :
    (key : String) (vs : List Value) (m : Mock)
    → NoError "RPush" m
    → NoError "LPop" m
    → pops key (suc (length (list_at m key ++ map sprint vs))) (rpush key vs m).1
      ≡ map (λ x. ok x) (list_at m key ++ map sprint vs) ++ err key_not_found ∷ []
pops-rpush key vs m hr hl =
    let l = list_at m key ++ map sprint vs in
    rw (rpush-state key vs m hr) (
      pops_all key l (put_list key l (counted "RPush" m)) hl
        (list_at-put_list key l (counted "RPush" m)))

get_elem?-last :
    (l : List String) (x : String) → get_elem? (l ++ x ∷ []) (length (l ++ x ∷ []) - 1) ≡ some x
get_elem?-last [] x = refl
get_elem?-last (y ∷ l) x =
    let n = length (l ++ x ∷ []) in
    let e : suc n - 1 ≡ suc (n - 1) = omega (arith, length-append l (x ∷ [])) in
    rw e (get_elem?-last l x)

take-last : (l : List String) (x : String) → take (length (l ++ x ∷ []) - 1) (l ++ x ∷ []) ≡ l
take-last [] x = refl
take-last (y ∷ l) x =
    let n = length (l ++ x ∷ []) in
    let e : suc n - 1 ≡ suc (n - 1) = omega (arith, length-append l (x ∷ [])) in
    rw e (ap (λ r. y ∷ r) (take-last l x))

rpop-snoc :
    (key x : String) (l : List String) (m : Mock)
    → NoError "RPop" m
    → list_at m key ≡ l ++ x ∷ []
    → rpop key m ≡ (ok x, put_list key l (counted "RPop" m))
unfolding rpop
rpop-snoc key x l m h e =
    guarded-body "RPop" (λ m. pop_last key (list_at m key) m) m h
    ∙ rw e (unfold pop_last in ground (arith, get_elem?-last l x, take-last l x))

map-snoc :
    (vs : List Value) (v : Value) → map sprint (vs ++ v ∷ []) ≡ map sprint vs ++ sprint v ∷ []
map-snoc [] v = refl
map-snoc (w ∷ vs) v = ap (λ r. sprint w ∷ r) (map-snoc vs v)

-- A list is a stack: RPop behind RPush returns the last of the values and leaves the others behind
-- what was there. (No error is injected.)
pub rpop-rpush :
    (key : String) (vs : List Value) (v : Value) (m : Mock)
    → NoError "RPush" m
    → NoError "RPop" m
    → ((rpop key (rpush key (vs ++ v ∷ []) m).1).0 ≡ ok (sprint v))
      × (list_at (rpop key (rpush key (vs ++ v ∷ []) m).1).1 key ≡ list_at m key ++ map sprint vs)
rpop-rpush key vs v m hr hp =
    let all = list_at m key ++ map sprint (vs ++ v ∷ []) in
    let l = list_at m key ++ map sprint vs in
    let m1 = put_list key all (counted "RPush" m) in
    let split : all ≡ l ++ sprint v ∷ [] =
      rw (map-snoc vs v) (sym (append_assoc (list_at m key) (map sprint vs) (sprint v ∷ []))) in
    let popped : rpop key (rpush key (vs ++ v ∷ []) m).1
        ≡ (ok (sprint v), put_list key l (counted "RPop" m1)) =
      rw (rpush-state key (vs ++ v ∷ []) m hr)
        (rpop-snoc key (sprint v) l m1 hp (list_at-put_list key all (counted "RPush" m) ∙ split)) in
    (
      ap (λ r. r.0) popped,
      ap (λ r. list_at r.1 key) popped ∙ list_at-put_list key l (counted "RPop" m1),
    )

-- LRange returns the elements from the start to the stop, an index below 0 counted from the end and
-- each clipped to the list. (No error is injected.)
pub lrange-slice :
    (key : String) (start stop : ℤ) (m : Mock)
    → NoError "LRange" m
    → (lrange key start stop m).0
      ≡ ok (
          drop
            (start_of (length (list_at m key)) start)
            (take (stop_of (length (list_at m key)) stop) (list_at m key)))
unfolding lrange
lrange-slice key start stop m h =
    rw (guarded-body "LRange" (λ m. (ok (slice_range start stop (list_at m key)), m)) m h)
      (ap (λ r. ok r) (slice_range_lem start stop (list_at m key)))

-- The whole list behind LPush: the values stand in the order in which they were given, in front of
-- what was there. (No error is injected.)
pub lrange-lpush :
    (key : String) (vs : List Value) (m : Mock)
    → NoError "LPush" m
    → NoError "LRange" m
    → (lrange key (pos 0) (negsuc 0) (lpush key vs m).1).0 ≡ ok (map sprint vs ++ list_at m key)
lrange-lpush key vs m hp hr =
    let l = map sprint vs ++ list_at m key in
    let m1 = put_list key l (counted "LPush" m) in
    rw (lpush-state key vs m hp) (
      lrange-slice key (pos 0) (negsuc 0) m1 hr
      ∙ ap (λ r. ok r)
          (rw (list_at-put_list key l (counted "LPush" m))
            (unfold start_of stop_of in take-length_le (length l - 0) l (omega arith))))
