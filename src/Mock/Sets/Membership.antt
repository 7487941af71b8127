-- ===== src/Mock/Sets/Membership.antt =====
-- Who is a member behind SAdd and SRem, and what their counts say.
use resilix.Prelude.{
  ℕ, ◌+◌, String, ◌≡◌, refl, not, ◌&&◌, ◌||◌, some, List, [], ◌∷◌, arith, eq_refl, ◌∙◌, ap,
}
use resilix.Errors.{ok}
use resilix.Dict
use resilix.Dict.{get_or_lem, has-put, has-remove, size-put}
use resilix.Mock.{Mock}
use resilix.Mock.Injected.{NoError, counted, guarded-body}
use resilix.Mock.Kv.Views.{elem}
use resilix.Mock.Sets.{MemberSet, set_at, sadd_each, sadd, srem_each, srem, sismember, scard}

pub sadd_each-has :
    (xs : List String) (s : MemberSet) (x : String)
    → Dict.has (sadd_each xs s).1 x ≡ (elem x xs || Dict.has s x)
unfolding sadd_each elem
sadd_each-has [] s x = refl
sadd_each-has (y ∷ xs) s x = ground (arith, sadd_each-has xs (Dict.put s y tt) x, has-put s y x tt)

pub sadd_each-size :
    (xs : List String) (s : MemberSet)
    → Dict.size (sadd_each xs s).1 ≡ (sadd_each xs s).0 + Dict.size s
unfolding sadd_each
sadd_each-size [] s = omega arith
sadd_each-size (y ∷ xs) s = omega (arith, sadd_each-size xs (Dict.put s y tt), size-put s y tt)

pub srem_each-has :
    (xs : List String) (s : MemberSet) (x : String)
    → Dict.has (srem_each xs s).1 x ≡ (not (elem x xs) && Dict.has s x)
unfolding srem_each elem
srem_each-has [] s x = refl
srem_each-has (y ∷ xs) s x = ground (arith, srem_each-has xs (Dict.remove s y) x, has-remove s y x)

sadd-state :
    (key : String) (xs : List String) (m : Mock)
    → NoError "SAdd" m
    → sadd key xs m ≡ (
      ok (sadd_each xs (set_at m key)).0,
      record (counted "SAdd" m) { sets = Dict.put m.sets key (sadd_each xs (set_at m key)).1 },
    )
unfolding sadd
sadd-state key xs m h = rw (guarded-body "SAdd" _ m h)

set_at-put :
    (key : String) (s : MemberSet) (m : Mock)
    → set_at (record m { sets = Dict.put m.sets key s }) key ≡ s
set_at-put key s m =
    get_or_lem (Dict.put m.sets key s) key Dict.empty
    ∙ rw (Dict.get-put m.sets key key s, eq_refl key)

sismember-state :
    (key x : String) (m : Mock)
    → NoError "SIsMember" m
    → (sismember key x m).0 ≡ ok (Dict.has (set_at m key) x)
unfolding sismember
sismember-state key x m h =
    rw (guarded-body "SIsMember" (λ m. (ok (Dict.has (set_at m key) x), m)) m h)

scard-state :
    (key : String) (m : Mock) → NoError "SCard" m → (scard key m).0 ≡ ok (Dict.size (set_at m key))
unfolding scard
scard-state key m h = rw (guarded-body "SCard" (λ m. (ok (Dict.size (set_at m key)), m)) m h)

-- Behind SAdd the members are those that were given and those that were there; and SCard has grown
-- by what SAdd returned. (No error is injected.)
pub sadd-members :
    (key : String) (xs : List String) (x : String) (n : ℕ) (m : Mock)
    → NoError "SAdd" m
    → NoError "SIsMember" m
    → NoError "SCard" m
    → (sadd key xs m).0 ≡ ok n
    → ((sismember key x (sadd key xs m).1).0 ≡ ok (elem x xs || Dict.has (set_at m key) x))
      × ((scard key (sadd key xs m).1).0 ≡ ok (n + Dict.size (set_at m key)))
sadd-members key xs x n m ha hi hc returned =
    let s = (sadd_each xs (set_at m key)).1 in
    let m1 = record (counted "SAdd" m) { sets = Dict.put m.sets key s } in
    let at = set_at-put key s (counted "SAdd" m) in
    let added : (sadd_each xs (set_at m key)).0 ≡ n =
      cc (ap (λ r. r.0) (sadd-state key xs m ha), returned) in
    rw (sadd-state key xs m ha) (
      sismember-state key x m1 hi
          ∙ ap (λ b. ok b) (ap (λ d. Dict.has d x) at ∙ sadd_each-has xs (set_at m key) x),
      scard-state key m1 hc
          ∙ ap (λ k. ok k)
              (ap (λ d. Dict.size d) at
                ∙ sadd_each-size xs (set_at m key)
                ∙ ap (λ (k : ℕ). k + Dict.size (set_at m key)) added),
    )

srem-found :
    (key : String) (xs : List String) (s : MemberSet) (m : Mock)
    → NoError "SRem" m
    → Dict.get m.sets key ≡ some s
    → (srem key xs m).1
      ≡ record (counted "SRem" m) { sets = Dict.put m.sets key (srem_each xs s).1 }
unfolding srem
srem-found key xs s m h e = rw (guarded-body "SRem" _ m h) (ground (arith, e))

-- Behind SRem of a set that is there, its members are those that were and were not listed. (No
-- error is injected.)
pub sismember-srem :
    (key : String) (xs : List String) (x : String) (s : MemberSet) (m : Mock)
    → NoError "SRem" m
    → NoError "SIsMember" m
    → Dict.get m.sets key ≡ some s
    → (sismember key x (srem key xs m).1).0 ≡ ok (not (elem x xs) && Dict.has s x)
sismember-srem key xs x s m hr hi e =
    let s' = (srem_each xs s).1 in
    rw (srem-found key xs s m hr e) (
      sismember-state key x (record (counted "SRem" m) { sets = Dict.put m.sets key s' }) hi
      ∙ ap (λ b. ok b)
          (ap (λ d. Dict.has d x) (set_at-put key s' (counted "SRem" m)) ∙ srem_each-has xs s x))
