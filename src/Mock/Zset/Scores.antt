-- ===== src/Mock/Zset/Scores.antt =====
-- The order of a sorted set, and the scores behind ZAdd.
use resilix.Prelude.{
  String, ◌≡◌, refl, Option, none, some, List, [], ◌∷◌, arith, eq_refl, eq_iff, str_eq, sym, ◌∙◌,
  ap, subst, if◌then◌else◌,
}
use resilix.Prelude.Int.{ℤ, ◌≤ℤ◌}
use resilix.Errors.{Result, ok, err, key_not_found}
use resilix.Dict
use resilix.Dict.{get_or_lem}
use resilix.Mock.{Mock, ZMember}
use resilix.Mock.Injected.{NoError, counted, guarded-body}
use resilix.Mock.Zset.{
  zset_at, put_zset, insert_member, sort_zset, zadd_one, zadd_each, zadd, score_of, zscore,
}

-- The scores do not fall from one entry to the next.
abbrev pub IsSorted : List ZMember → Type 0
IsSorted [] = Unit {0}
IsSorted (x ∷ []) = Unit {0}
IsSorted (x ∷ y ∷ l) = (x.score ≤ℤ y.score) × IsSorted (y ∷ l)

insert_member-IsSorted :
    (x : ZMember) (l : List ZMember) → IsSorted l → IsSorted (insert_member x l)
unfolding insert_member
insert_member-IsSorted x [] h = tt
insert_member-IsSorted x (y ∷ []) h = ground arith
insert_member-IsSorted x (y ∷ z ∷ l) h = ground (arith, insert_member-IsSorted x (z ∷ l) h.1)

sort_zset-IsSorted : (l : List ZMember) → IsSorted (sort_zset l)
unfolding sort_zset
sort_zset-IsSorted [] = tt
sort_zset-IsSorted (x ∷ l) = insert_member-IsSorted x (sort_zset l) (sort_zset-IsSorted l)

-- No member has two entries.
abbrev pub DistinctMembers : List ZMember → Type 0
DistinctMembers [] = Unit {0}
DistinctMembers (x ∷ l) = (score_of x.member l ≡ none) × DistinctMembers l

score_of-insert_member :
    (x : ZMember) (l : List ZMember) (j : String)
    → score_of x.member l ≡ none
    → score_of j (insert_member x l) ≡ (if str_eq x.member j then some x.score else score_of j l)
unfolding insert_member score_of
score_of-insert_member x [] j h = refl
score_of-insert_member x (y ∷ l) j h = ground (
  arith,
  eq_iff y.member x.member,
  eq_iff x.member j,
  eq_iff y.member j,
  score_of-insert_member x l j,
)

score_of-sort_zset :
    (l : List ZMember) (j : String) → DistinctMembers l → score_of j (sort_zset l) ≡ score_of j l
unfolding sort_zset score_of
score_of-sort_zset [] j d = refl
score_of-sort_zset (x ∷ l) j d = ground (
  arith,
  score_of-insert_member x (sort_zset l) j,
  score_of-sort_zset l j d.1,
  score_of-sort_zset l x.member d.1,
)

score_of-zadd_one :
    (x : ZMember) (l : List ZMember) (j : String)
    → score_of j (zadd_one x l).1 ≡ (if str_eq x.member j then some x.score else score_of j l)
unfolding zadd_one score_of
score_of-zadd_one x [] j = refl
score_of-zadd_one x (y ∷ l) j =
    ground (
      arith,
      eq_iff y.member x.member,
      eq_iff x.member j,
      eq_iff y.member j,
      score_of-zadd_one x l j,
    )

zadd_one-DistinctMembers :
    (x : ZMember) (l : List ZMember) → DistinctMembers l → DistinctMembers (zadd_one x l).1
unfolding zadd_one score_of
zadd_one-DistinctMembers x [] d = (refl, tt)
zadd_one-DistinctMembers x (y ∷ l) d = ground (
  arith,
  eq_iff y.member x.member,
  eq_iff x.member y.member,
  score_of-zadd_one x l y.member,
  zadd_one-DistinctMembers x l d.1,
)

-- The last of the scores that are given for a member, if one is, else what it had.
unfoldable pub last_score : List ZMember → String → Option ℤ → Option ℤ
last_score [] j old = old
last_score (x ∷ xs) j old = last_score xs j (if str_eq x.member j then some x.score else old)

score_of-zadd_each :
    (xs l : List ZMember) (j : String)
    → score_of j (zadd_each xs l).1 ≡ last_score xs j (score_of j l)
unfolding zadd_each last_score
score_of-zadd_each [] l j = refl
score_of-zadd_each (x ∷ xs) l j =
    score_of-zadd_each xs (zadd_one x l).1 j ∙ rw (score_of-zadd_one x l j)

zadd_each-DistinctMembers :
    (xs l : List ZMember) → DistinctMembers l → DistinctMembers (zadd_each xs l).1
unfolding zadd_each
zadd_each-DistinctMembers [] l d = d
zadd_each-DistinctMembers (x ∷ xs) l d =
    zadd_each-DistinctMembers xs (zadd_one x l).1 (zadd_one-DistinctMembers x l d)

zset_at-put : (key : String) (l : List ZMember) (m : Mock) → zset_at (put_zset key l m) key ≡ l
zset_at-put key l m =
    get_or_lem (Dict.put m.zsets key l) key [] ∙ rw (Dict.get-put m.zsets key key l, eq_refl key)

zadd-state :
    (key : String) (xs : List ZMember) (m : Mock)
    → NoError "ZAdd" m
    → (zadd key xs m).1
      ≡ put_zset key (sort_zset (zadd_each xs (zset_at m key)).1) (counted "ZAdd" m)
unfolding zadd
zadd-state key xs m h = rw (guarded-body "ZAdd" _ m h)

-- What ZScore returns for a score that is looked up.
abbrev pub score_reading : Option ℤ → Result ℤ
score_reading none = err key_not_found
score_reading (some s) = ok s

zscore-state :
    (key j : String) (m : Mock)
    → NoError "ZScore" m
    → (zscore key j m).0 ≡ score_reading (score_of j (zset_at m key))
unfolding zscore
zscore-state key j m h = rw (guarded-body "ZScore" _ m h) (ground arith)

-- Behind ZAdd the set is in the order of the scores, and ZScore returns the last score that was
-- given for a member, or the one that it had. (No error is injected, and no member had two entries,
-- as ZAdd itself keeps it.)
pub zscore-zadd :
    (key j : String) (xs : List ZMember) (m : Mock)
    → DistinctMembers (zset_at m key)
    → NoError "ZAdd" m
    → NoError "ZScore" m
    → IsSorted (zset_at (zadd key xs m).1 key)
      × ((zscore key j (zadd key xs m).1).0
          ≡ score_reading (last_score xs j (score_of j (zset_at m key))))
zscore-zadd key j xs m d ha hs =
    let l = (zadd_each xs (zset_at m key)).1 in
    let m1 = put_zset key (sort_zset l) (counted "ZAdd" m) in
    let at = zset_at-put key (sort_zset l) (counted "ZAdd" m) in
    rw (zadd-state key xs m ha) (
      subst IsSorted (sym at) (sort_zset-IsSorted l),
      zscore-state key j m1 hs
          ∙ ap score_reading (
              ap (λ r. score_of j r) at
              ∙ score_of-sort_zset l j (zadd_each-DistinctMembers xs (zset_at m key) d)
              ∙ score_of-zadd_each xs (zset_at m key) j),
    )
