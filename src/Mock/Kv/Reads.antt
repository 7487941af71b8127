-- ===== src/Mock/Kv/Reads.antt =====
-- What a read of a key returns after the commands that write keys.
use resilix.Prelude.{
  String, ◌≡◌, refl, Bool, ◌&&◌, Option, none, some, List, [], ◌∷◌, arith, map, if◌then◌else◌,
  eq_refl, str_eq, sym, ◌∙◌, ap, fun_ext,
}
use resilix.Prelude.Int.{Time, Duration, pos, ◌≤ℤ◌, ltb_ℤ, ◌+ℤ◌, ◌-ℤ◌}
use resilix.Errors.{Result, ok, err, key_not_found}
use resilix.Dict
use resilix.Mock.{Mock, KvEntry, Value, sprint, expired, get_kv}
use resilix.Mock.Injected.{NoError, counted, guarded-body}
use resilix.Mock.Kv.{
  del_one, expire_entry, ttl_of, new_entry, get, set, mget, del, exists, expire, ttl, found, put_kv,
  get_each, del_each, exists_each, no_key,
}
use resilix.Mock.Kv.Views.{
  expired_mono, value_at, value_of, fresh, elem, AllDistinct, live_count, get_kv-value,
  get_each-values, exists_each-count, del_each-value, del_each-count, value_at-put_kv,
}

-- What Get returns for a value that is seen.
abbrev pub reading : Option String → Result String
reading none = err key_not_found
reading (some v) = ok v

pub value_at-counted :
    (op : String) (t : Time) (m : Mock) (k : String) → value_at t (counted op m) k ≡ value_at t m k
unfolding value_at
value_at-counted op t m k = refl

pub found-reading : (r : Option String × Mock) → (found r).0 ≡ reading r.0
unfolding found
found-reading (none, m) = refl
found-reading (some v, m) = refl

-- Get returns the value that is seen, and ErrKeyNotFound where there is none.
pub get-value :
    (now : Time) (k : String) (m : Mock)
    → NoError "Get" m
    → (get now k m).0 ≡ reading (value_at now m k)
unfolding get
get-value now k m h = rw (guarded-body "Get" (λ m. found (get_kv now k m)) m h) (
    found-reading (get_kv now k (counted "Get" m))
    ∙ ap reading (get_kv-value now k (counted "Get" m) ∙ value_at-counted "Get" now m k))

-- Whether a value set at `now` with this time to live is gone at `t`.
abbrev pub gone : Time → Duration → Time → Bool
gone now d t = ltb_ℤ (pos 0) d && ltb_ℤ (now +ℤ d) t

pub set-state :
    (now : Time) (k : String) (v : Value) (d : Duration) (m : Mock)
    → NoError "Set" m
    → set now k v d m ≡ (ok tt, put_kv k (new_entry now v d) (counted "Set" m))
unfolding set
set-state now k v d m h = guarded-body "Set" (λ m. (ok tt, put_kv k (new_entry now v d) m)) m h

fresh-new_entry :
    (now t : Time) (v : Value) (d : Duration)
    → value_of (fresh t (some (new_entry now v d)))
      ≡ (if gone now d t then none else some (sprint v))
unfolding new_entry expired
fresh-new_entry now t v d = ground arith

-- A read after Set, at a time that is not before it: the key's new text until its time to live is
-- over (without end where that is not positive), and every other key as it was. (No error is
-- injected.)
pub get-set :
    (now t : Time) (k j : String) (v : Value) (d : Duration) (m : Mock)
    → NoError "Set" m
    → NoError "Get" m
    → (get t j (set now k v d m).1).0
      ≡ reading
          (if str_eq k j then (if gone now d t then none else some (sprint v)) else value_at t m j)
get-set now t k j v d m hs hg = rw (set-state now k v d m hs) (
    get-value t j (put_kv k (new_entry now v d) (counted "Set" m)) (unfold put_kv in hg)
    ∙ ap reading (
        value_at-put_kv t (counted "Set" m) k j (new_entry now v d)
        ∙ rw (fresh-new_entry now t v d, value_at-counted "Set" t m j)))

del-state :
    (now : Time) (ks : List String) (m : Mock)
    → NoError "Del" m
    → del now ks m
      ≡ (ok (del_each now ks (counted "Del" m)).0, (del_each now ks (counted "Del" m)).1)
unfolding del
del-state now ks m h =
    guarded-body "Del" (λ m. (ok (del_each now ks m).0, (del_each now ks m).1)) m h

pub get_kv-errors : (now : Time) (k : String) (m : Mock) → (get_kv now k m).1.errors ≡ m.errors
unfolding get_kv
get_kv-errors now k m = ground arith

del_each-errors :
    (now : Time) (ks : List String) (m : Mock) → (del_each now ks m).1.errors ≡ m.errors
unfolding del_each del_one
del_each-errors now [] m = refl
del_each-errors now (k ∷ ks) m =
    ground (arith, get_kv-errors now k m, del_each-errors now ks (del_one now k m).1)

-- A read after Del, at a time that is not before it: no value for a key that was listed, and every
-- other key as it was. (No error is injected.)
pub get-del :
    (now t : Time) (ks : List String) (j : String) (m : Mock)
    → now ≤ℤ t
    → NoError "Del" m
    → NoError "Get" m
    → (get t j (del now ks m).1).0 ≡ reading (if elem j ks then none else value_at t m j)
get-del now t ks j m le hd hg =
    let m1 = counted "Del" m in
    let kept = del_each-errors now ks m1 in
    rw (del-state now ks m hd) (
      get-value t j (del_each now ks m1).1
        (ap (λ d. Dict.get_or d "Get" []) kept ∙ hg.0, ap (λ d. Dict.get_or d "" []) kept ∙ hg.1)
      ∙ ap reading (del_each-value now t ks j m1 le ∙ rw (value_at-counted "Del" t m j)))

exists-count :
    (now : Time) (ks : List String) (m : Mock)
    → NoError "Exists" m
    → (exists now ks m).0 ≡ ok (live_count (value_at now m) ks)
unfolding exists
exists-count now ks m h =
    rw (guarded-body "Exists" (λ m. (ok (exists_each now ks m).0, (exists_each now ks m).1)) m h) (
      ap (λ n. ok n)
        (exists_each-count now ks (counted "Exists" m)
          ∙ ap (λ f. live_count f ks) (fun_ext (λ j. value_at-counted "Exists" now m j))))

-- Del returns how many of the keys had a value, which is what Exists returns before it, as long as
-- no key is listed twice. (No error is injected.)
pub del-exists :
    (now : Time) (ks : List String) (m : Mock)
    → AllDistinct ks
    → NoError "Del" m
    → NoError "Exists" m
    → ((del now ks m).0 ≡ ok (live_count (value_at now m) ks))
      × ((exists now ks m).0 ≡ (del now ks m).0)
del-exists now ks m d hd he =
    let counts : (del now ks m).0 ≡ ok (live_count (value_at now m) ks) =
      rw (del-state now ks m hd) (
        ap (λ n. ok n)
          (del_each-count now ks (counted "Del" m) d
            ∙ ap (λ f. live_count f ks) (fun_ext (λ j. value_at-counted "Del" now m j)))) in
    (counts, exists-count now ks m he ∙ sym counts)

-- MGet returns the values that are seen, in the order of the keys.
pub mget-values :
    (now : Time) (ks : List String) (m : Mock)
    → NoError "MGet" m
    → (mget now ks m).0 ≡ ok (map (value_at now m) ks)
unfolding mget
mget-values now ks m h =
    rw (guarded-body "MGet" (λ m. (ok (get_each now ks m).0, (get_each now ks m).1)) m h) (
      ap (λ vs. ok vs)
        (get_each-values now ks (counted "MGet" m)
          ∙ ap (λ f. map f ks) (fun_ext (λ j. value_at-counted "MGet" now m j))))

ttl-state :
    (t : Time) (k : String) (m : Mock)
    → NoError "TTL" m
    → (ttl t k m).0 ≡ ok (ttl_of t (Dict.get m.kv k))
unfolding ttl
ttl-state t k m h = rw (guarded-body "TTL" (λ m. (ok (ttl_of t (Dict.get m.kv k)), m)) m h)

expire_entry-kept :
    (now : Time) (k : String) (d : Duration) (o : Option KvEntry) (m : Mock)
    → Dict.get m.kv k ≡ o
    → ((expire_entry now k d o m).1.errors ≡ m.errors)
      × (Dict.get (expire_entry now k d o m).1.kv k
          ≡ elim (fresh now o) [ none ↦ o | some e ↦ some (record e { expiry = some (now +ℤ d) }) ])
unfolding expire_entry put_kv
expire_entry-kept now k d none m h = ground arith
expire_entry-kept now k d (some e) m h =
    ground (
      arith,
      eq_refl k,
      Dict.get-put m.kv k k (record { value = e.value; expiry = some (now +ℤ d) }),
    )

-- What TTL sees of the entry that Expire leaves.
ttl_of-expired :
    (now t : Time) (d : Duration) (o : Option KvEntry)
    → now ≤ℤ t
    → ttl_of t
        (elim (fresh now o) [ none ↦ o | some e ↦ some (record e { expiry = some (now +ℤ d) }) ])
      ≡ elim (value_of (fresh now o)) [
        | none ↦ no_key
        | some v ↦ if ltb_ℤ (now +ℤ d) t then no_key else now +ℤ d -ℤ t
      ]
unfolding ttl_of expired
ttl_of-expired now t d none le = refl
ttl_of-expired now t d (some e) le = ground (arith, expired_mono now t e le)

-- TTL behind Expire, at a time that is not before it. Of a key with a value: what is left of the
-- new time to live, and -2 seconds once it is over. Of a key without one: -2 seconds. (No error is
-- injected.)
pub ttl-expire :
    (now t : Time) (k : String) (d : Duration) (m : Mock)
    → now ≤ℤ t
    → NoError "Expire" m
    → NoError "TTL" m
    → (ttl t k (expire now k d m).1).0
      ≡ ok (elim (value_at now m k) [
        | none ↦ no_key
        | some v ↦ if ltb_ℤ (now +ℤ d) t then no_key else now +ℤ d -ℤ t
      ])
ttl-expire now t k d m le he ht =
    let m1 = counted "Expire" m in
    let o = Dict.get m.kv k in
    let (errors, entry) = expire_entry-kept now k d o m1 refl in
    let run : expire now k d m ≡ expire_entry now k d o m1 =
      unfold expire in guarded-body "Expire" (λ m. expire_entry now k d (Dict.get m.kv k) m) m he in
    rw run (
      ttl-state t k (expire_entry now k d o m1).1 (
        ap (λ e. Dict.get_or e "TTL" []) errors ∙ ht.0,
        ap (λ e. Dict.get_or e "" []) errors ∙ ht.1,
      )
      ∙ ap (λ x. ok x)
          (ap (ttl_of t) entry ∙ ttl_of-expired now t d o le ∙ (unfold value_at in refl)))
